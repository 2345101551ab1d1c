-- ===== src/Job/Identity.antt =====
-- Which identifiers a job accepts, and that its arrays are never overrun.
use libcluster.Prelude.{
  ℕ, ◌≤◌, ◌<◌, Bool, true, none, some, [], ◌≡◌, ◌⊎◌, ◌↔◌, arith, take, length, length-take,
  take_all,
}
use libcluster.Prelude.Int.{pos, negsuc}
use libcluster.Prelude.Bytes.{Bytes}
use libcluster.Process.{einval, success, ok}
use libcluster.Job.{
  new_job, logged, ClusterJob, JobResult, job_id_len, job_tag_len, job_name_len, cluster_job_vlogf,
  cluster_job_create_id, cluster_job_set_parent_id, cluster_job_set_parent_job, cluster_job_set_id,
  cluster_job_set_tag, cluster_job_set_name, cluster_job_id_valid,
}

-- cluster_job_create_id with an identifier of 2 to 32 bytes, memory for the job being had, makes
-- a job that keeps the identifier whole, with its first seven bytes as tag, in the given
-- cluster, without a parent and with progress 0.
pub create_id_valid :
    (logbuf_ok : Bool) (uuid : Bytes) (cluster : ℕ) (str : Bytes)
    → 2 ≤ length str
    → length str ≤ 32
    → (job : ClusterJob) × (cluster_job_create_id true logbuf_ok uuid cluster (some str)
        ≡ (some job, success))
      × (job.id ≡ str)
      × (job.tag ≡ take 7 str)
      × (job.cluster ≡ cluster)
      × (job.parent ≡ [])
      × (job.progress ≡ pos 0)
unfolding cluster_job_create_id cluster_job_vlogf
create_id_valid logbuf_ok uuid cluster str low high = (
  logged logbuf_ok (new_job cluster str),
  ground arith,
  ground (arith, take_all 32 str high),
  ground arith,
  ground arith,
  ground arith,
  ground arith,
)

-- Any other identifier is refused with EINVAL, whether or not memory can be had.
pub create_id_invalid :
    (calloc_ok logbuf_ok : Bool) (uuid : Bytes) (cluster : ℕ) (str : Bytes)
    → (length str < 2) ⊎ (32 < length str)
    → cluster_job_create_id calloc_ok logbuf_ok uuid cluster (some str) ≡ (none, einval)
unfolding cluster_job_create_id
create_id_invalid calloc_ok logbuf_ok uuid cluster str outside = ground arith

-- cluster_job_set_id returns -1 for an identifier exactly if it is a valid one, of 2 to 32
-- bytes.
pub set_id_refuses_valid :
    (logbuf_ok : Bool) (job : ClusterJob) (newid : Bytes)
    → ((cluster_job_set_id logbuf_ok job (some newid)).0 ≡ negsuc 0)
      ↔ ((2 ≤ length newid) × (length newid ≤ 32))
unfolding cluster_job_set_id cluster_job_id_valid
set_id_refuses_valid logbuf_ok job newid = (λ h. ground arith, λ h. ground arith)

-- cluster_job_set_parent_job makes a job the child of any job whose identifier has 2 to 32
-- bytes, whichever clusters the two are in: it returns 0, the parent's identifier is stored
-- whole, and the job's own cluster is kept.
set_parent_job_any_cluster :
    (logbuf_ok : Bool) (job parent : ClusterJob)
    → 2 ≤ length parent.id
    → length parent.id ≤ 32
    → (r : JobResult) × (cluster_job_set_parent_job logbuf_ok job (some parent) ≡ ok r)
      × (r.value ≡ pos 0)
      × (r.job.parent ≡ parent.id)
      × (r.job.cluster ≡ job.cluster)
unfolding cluster_job_set_parent_job cluster_job_vlogf
set_parent_job_any_cluster logbuf_ok job parent low high = (
  cluster_job_set_parent_id logbuf_ok job (some parent.id),
  ground arith,
  ground arith,
  ground (arith, take_all 32 parent.id high),
  ground arith,
)

-- The text of each array and its NUL fit the array.
pub record IsWithin (job : ClusterJob) : Type 0 where
  pub id_fits : length job.id ≤ job_id_len
  pub parent_fits : length job.parent ≤ job_id_len
  pub tag_fits : length job.tag ≤ job_tag_len
  pub name_fits : length job.name ≤ job_name_len

module _ (logbuf_ok : Bool) (job : ClusterJob) (within : IsWithin job) (s : Bytes) where
  -- For a job whose texts fit their arrays, setting the parent's identifier, the identifier, the
  -- tag or the name to a text of any length leaves every text of the job within its array.
  setters-IsWithin :
      IsWithin (cluster_job_set_parent_id logbuf_ok job (some s)).job
      × IsWithin (cluster_job_set_id logbuf_ok job (some s)).1
      × IsWithin (cluster_job_set_tag job s).1
      × IsWithin (cluster_job_set_name logbuf_ok job s).job
  unfolding cluster_job_set_parent_id cluster_job_set_id cluster_job_set_tag cluster_job_set_name
      cluster_job_vlogf
  setters-IsWithin = (
    ground (arith, length-take 32 s),
    ground (arith, length-take 32 s, length-take 7 s),
    ground (arith, length-take 7 s),
    ground (arith, length-take 32 s),
  )
