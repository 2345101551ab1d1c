-- ===== src/Job.antt =====
-- job.c: jobs. Log lines are in Job/Log; that logging allocates the job's buffer is told here.
-- Allocations are arguments: `calloc_ok` for the job, `logbuf_ok` for its log buffer. WITH_LIBUUID is
-- taken to be set, and the text of a generated UUID is an argument.
pub mod Identity
pub mod Progress
pub mod Log
use libcluster.Prelude.{
  ℕ, zero, suc, ◌+◌, ◌<◌, ◌≤◌, Bool, true, false, not, ◌&&◌, ◌||◌, Option, none, some, List, [],
  ◌∷◌, take, length, ltb, leb, ◌==◌, if◌then◌else◌,
}
use libcluster.Prelude.Int.{ℤ, pos, negsuc, ltb_ℤ, eq_ℤ, ◌+ℤ◌}
use libcluster.Prelude.Bytes.{Bytes}
use libcluster.Process.{Errno, einval, eperm, success, Outcome, ok, fault, null_deref}
use libcluster.Cluster.Settings.{isalnum}

-- CLUSTER_JOB_ID_LEN, CLUSTER_JOB_TAG_LEN, CLUSTER_JOB_NAME_LEN
abbrev pub job_id_len : ℕ
job_id_len = 32

abbrev pub job_tag_len : ℕ
job_tag_len = 7

abbrev pub job_name_len : ℕ
job_name_len = 32

-- `struct cluster_job_struct`. `cluster` is the address of the cluster; each array holds the text
-- before its NUL; `logbuf` says whether the log buffer is allocated.
pub record ClusterJob : Type 0 where
  pub cluster : ℕ
  pub id : Bytes
  pub parent : Bytes
  pub tag : Bytes
  pub name : Bytes
  pub total : ℤ
  pub progress : ℤ
  pub logbuf : Bool

-- A job after a call, with what the call returns and the value of `errno`, `success` if it is not set.
pub record JobResult : Type 0 where
  pub value : ℤ
  pub errno : Errno
  pub job : ClusterJob

-- `cluster_job_id_valid_`
unfoldable pub cluster_job_id_valid : Bytes → Bool
cluster_job_id_valid str = if ltb (length str) 2 || ltb 32 (length str) then false else true

-- `strncpy` into an array of `n + 1` bytes whose last byte is then set to NUL.
abbrev pub copy_text : ℕ → Bytes → Bytes
copy_text n s = take n s

-- `cluster_job_vlogf`, for the job: the buffer is allocated once, and kept.
unfoldable pub cluster_job_vlogf : Bool → ClusterJob → ℤ × ClusterJob
cluster_job_vlogf logbuf_ok job =
    if job.logbuf
    then (pos 0, job)
    else if logbuf_ok
    then (pos 0, record job { logbuf = true })
    else (negsuc 0, job)

-- `cluster_job_logf`
abbrev pub logged : Bool → ClusterJob → ClusterJob
logged logbuf_ok job = (cluster_job_vlogf logbuf_ok job).1

-- The letters and digits of a UUID's text, moved to the front of its own buffer.
unfoldable pub squeeze : Bytes → Bytes
squeeze [] = []
squeeze (c ∷ cs) = elim (isalnum c) [ true ↦ c ∷ squeeze cs | false ↦ squeeze cs ]

abbrev pub new_job : ℕ → Bytes → ClusterJob
new_job cluster str = record {
  cluster = cluster;
  id = copy_text job_id_len str;
  parent = [];
  tag = copy_text job_tag_len str;
  name = [];
  total = pos 1;
  progress = pos 0;
  logbuf = false;
}

-- `cluster_job_create_id`: NULL is `none`. `cluster_sql_job_create_`, which it calls for an SQL
-- cluster, does nothing and returns 0.
unfoldable pub cluster_job_create_id :
    Bool → Bool → Bytes → ℕ → Option Bytes → Option ClusterJob × Errno
unfolding squeeze cluster_job_id_valid
cluster_job_create_id calloc_ok logbuf_ok uuid cluster none =
    if calloc_ok
    then (some (logged logbuf_ok (new_job cluster (squeeze uuid))), success)
    else (none, success)
cluster_job_create_id calloc_ok logbuf_ok uuid cluster (some str) =
    if not (cluster_job_id_valid str)
    then (none, einval)
    else if calloc_ok
    then (some (logged logbuf_ok (new_job cluster str)), success)
    else (none, success)

-- `cluster_job_create`
unfoldable pub cluster_job_create : Bool → Bool → Bytes → ℕ → Option ClusterJob × Errno
unfolding cluster_job_create_id
cluster_job_create calloc_ok logbuf_ok uuid cluster =
    cluster_job_create_id calloc_ok logbuf_ok uuid cluster none

unfoldable pub cluster_job_set_parent_id : Bool → ClusterJob → Option Bytes → JobResult
unfolding cluster_job_vlogf cluster_job_id_valid
cluster_job_set_parent_id logbuf_ok job none = record {
  value = pos 0;
  errno = success;
  job = record (logged logbuf_ok job) { parent = [] };
}
cluster_job_set_parent_id logbuf_ok job (some parentstr) =
    if not (cluster_job_id_valid parentstr)
    then record { value = negsuc 0; errno = einval; job = job }
    else record {
      value = pos 0;
      errno = success;
      job = logged logbuf_ok (record job { parent = copy_text job_id_len parentstr });
    }

-- With no parent the job's parent is cleared first; then the missing parent is dereferenced. The
-- test of the two clusters compares the parent's with itself.
unfoldable pub cluster_job_set_parent_job :
    Bool → ClusterJob → Option ClusterJob → Outcome JobResult
unfolding cluster_job_set_parent_id
cluster_job_set_parent_job logbuf_ok job none = fault null_deref
cluster_job_set_parent_job logbuf_ok job (some parent) =
    if not (parent.cluster == parent.cluster)
    then ok (record { value = negsuc 0; errno = einval; job = job })
    else ok (cluster_job_set_parent_id logbuf_ok job (some parent.id))

-- `cluster_job_create_id_name`: the name is not used, nor is the result of setting the parent.
unfoldable pub cluster_job_create_id_name :
    Bool → Bool → Bytes → ℕ → Option Bytes → Bytes → Option ClusterJob × Errno
unfolding cluster_job_create_id cluster_job_set_parent_id
cluster_job_create_id_name calloc_ok logbuf_ok uuid cluster parentid name =
    let (made, e) = cluster_job_create_id calloc_ok logbuf_ok uuid cluster none in
    elim made [
      | none ↦ (none, e)
      | some job ↦ let r = cluster_job_set_parent_id logbuf_ok job parentid in (some r.job, r.errno)
    ]

-- `cluster_job_create_job_name`
unfoldable pub cluster_job_create_job_name :
    Bool → Bool → Bytes → ClusterJob → Bytes → Option ClusterJob × Errno
unfolding cluster_job_create_id_name
cluster_job_create_job_name calloc_ok logbuf_ok uuid parent name =
    cluster_job_create_id_name calloc_ok logbuf_ok uuid parent.cluster (some parent.id) name

-- `cluster_job_set_id`: refused where the identifier is valid.
unfoldable pub cluster_job_set_id : Bool → ClusterJob → Option Bytes → ℤ × ClusterJob
unfolding cluster_job_vlogf cluster_job_id_valid
cluster_job_set_id logbuf_ok job none = (negsuc 0, job)
cluster_job_set_id logbuf_ok job (some newid) =
    if cluster_job_id_valid newid then (negsuc 0, job) else (
      pos 0,
      record (logged logbuf_ok job) {
        id = copy_text job_id_len newid;
        tag = copy_text job_tag_len newid;
      },
    )

unfoldable pub cluster_job_set_total : Bool → ClusterJob → ℤ → ℤ × ClusterJob
unfolding cluster_job_vlogf
cluster_job_set_total logbuf_ok job total =
    if not (eq_ℤ job.total total)
    then (
      pos 0,
      logged logbuf_ok (record job {
        total = total;
        progress = if ltb_ℤ total job.progress then pos 0 else job.progress;
      }),
    )
    else (pos 0, job)

unfoldable pub cluster_job_set_progress : Bool → ClusterJob → ℤ → ℤ × ClusterJob
unfolding cluster_job_vlogf
cluster_job_set_progress logbuf_ok job progress =
    if ltb_ℤ job.total progress
    then (pos 0, logged logbuf_ok (record job { progress = progress; total = progress }))
    else if not (eq_ℤ job.progress progress)
    then (pos 0, logged logbuf_ok (record job { progress = progress }))
    else (pos 0, job)

unfoldable pub cluster_job_set_tag : ClusterJob → Bytes → ℤ × ClusterJob
cluster_job_set_tag job tag = (pos 0, record job { tag = copy_text job_tag_len tag })

-- `cluster_job_set_name`: only for a job with a parent.
unfoldable pub cluster_job_set_name : Bool → ClusterJob → Bytes → JobResult
unfolding cluster_job_vlogf
cluster_job_set_name logbuf_ok job name = elim job.parent [
  | [] ↦ record { value = negsuc 0; errno = eperm; job = job }
  | c ∷ cs ↦ record {
    value = pos 0;
    errno = success;
    job = logged logbuf_ok (record job { name = copy_text job_name_len name });
  }
]
