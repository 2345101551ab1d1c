-- ===== src/Tests/Jobs.antt =====
-- A job with an identifier and a progress.
use libcluster.Prelude.{◌↔◌, ◌≤◌, length, true, some, [], ◌∷◌, ◌≡◌, refl, ℕ, if◌then◌else◌}
use libcluster.Prelude.Int.{pos, negsuc}
use libcluster.Prelude.Bytes.{Bytes}
use libcluster.Process.{World, ok, ct_static}
use libcluster.Job as Job
use libcluster.Job.{
  ClusterJob, JobResult, cluster_job_set_id, cluster_job_set_parent_job, cluster_job_set_total,
}
use libcluster.Job.Identity.{set_id_refuses_valid}
use libcluster.Job.Log.{cluster_job_set_progress}
use libcluster.Job.Log.Lines.{said, progresses, progressed, progress_message, set_progress-said}
use libcluster.Logging.{log_info}
use libcluster.Tests.Samples.{connection, world}

abbrev label : Bytes
label = b'j' ∷ b'o' ∷ b'b' ∷ []

-- A job in cluster 7 with 5 of 10 units done.
abbrev half_done : ClusterJob
half_done = record {
  cluster = 7;
  id = label;
  parent = label;
  tag = label;
  name = [];
  total = pos 10;
  progress = pos 5;
  logbuf = true;
}

set_id_refuses_valid_example :
    ((cluster_job_set_id true half_done (some label)).0 ≡ negsuc 0)
    ↔ ((2 ≤ length label) × (length label ≤ 32))
set_id_refuses_valid_example = set_id_refuses_valid true half_done label

-- A process at rest, with a job of its cluster, and with a logger.
abbrev quiet : World ℕ
quiet = world (record (connection ct_static) { logger = true })

set_progress-said_example :
    cluster_job_set_progress true half_done (pos 11) quiet
    ≡ ok (
      record {
        value = (Job.cluster_job_set_progress true half_done (pos 11)).0;
        job = (Job.cluster_job_set_progress true half_done (pos 11)).1;
        lines =
            if progresses half_done (pos 11)
            then said true
                (progressed half_done (pos 11))
                log_info
                (progress_message (progressed half_done (pos 11)))
                quiet.cluster
            else [];
      },
      quiet,
    )
set_progress-said_example = set_progress-said true half_done (pos 11) quiet refl refl
