-- ===== src/Job/Progress.antt =====
-- A job's progress never passes its total.
use libcluster.Prelude.{Bool, true, ◌≡◌, ◌⊎◌, arith}
use libcluster.Prelude.Int.{ℤ, pos, ◌≤ℤ◌, ltb_ℤ, eq_ℤ-eq}
use libcluster.Job.{ClusterJob, cluster_job_vlogf, cluster_job_set_total, cluster_job_set_progress}

abbrev pub InProgress : ClusterJob → Type 0
InProgress job = job.progress ≤ℤ job.total

-- After cluster_job_set_progress the progress is the given one and does not pass the total, and
-- the total is the old one, or the progress where the progress is greater.
set_progress-InProgress :
    (logbuf_ok : Bool) (job : ClusterJob) (progress : ℤ)
    → let after = (cluster_job_set_progress logbuf_ok job progress).1 in
      InProgress after
      × (after.progress ≡ progress)
      × (job.total ≤ℤ after.total)
      × ((after.total ≡ job.total) ⊎ (after.total ≡ progress))
unfolding cluster_job_set_progress cluster_job_vlogf
set_progress-InProgress logbuf_ok job progress = ground (arith, eq_ℤ-eq job.progress progress)

-- For a job whose progress does not pass its total, and a new total that is not negative,
-- cluster_job_set_total stores it; the progress does not pass it, and is the old one, or 0 where
-- the old one was greater than the new total.
set_total-InProgress :
    (logbuf_ok : Bool) (job : ClusterJob) (total : ℤ)
    → InProgress job
    → pos 0 ≤ℤ total
    → let after = (cluster_job_set_total logbuf_ok job total).1 in
      InProgress after
      × (after.total ≡ total)
      × ((after.progress ≡ job.progress)
          ⊎ ((after.progress ≡ pos 0) × (ltb_ℤ total job.progress ≡ true)))
unfolding cluster_job_set_total cluster_job_vlogf
set_total-InProgress logbuf_ok job total h pos_total = ground (arith, eq_ℤ-eq job.total total)
