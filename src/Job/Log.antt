-- ===== src/Job/Log.antt =====
-- job.c: the log lines of a job, and the calls that do nothing but log. The calls of Job are told
-- again with their lines; `logbuf_ok` is as there. A line goes to the job's cluster, whose read lock is
-- taken for it.
pub mod Lines
use libcluster.Prelude.{
  ℕ, ◌-◌, Bool, true, false, not, Option, none, some, List, [], ◌∷◌, ◌++◌, take, if◌then◌else◌,
}
use libcluster.Prelude.Int.{ℤ, pos, negsuc, ltb_ℤ, eq_ℤ}
use libcluster.Prelude.Bytes.{Bytes}
use libcluster.Prelude.Decimal.{print_int}
use libcluster.Prelude.Text.{bytes}
use libcluster.Process.{M, pure, ◌>>=◌, add_int}
use libcluster.Job.{ClusterJob}
use libcluster.Logging.{Line, log_crit, log_info, log_debug, cluster_vlogf, cluster_logf}

-- CLUSTER_JOB_LOG_LEN
abbrev pub job_log_len : ℕ
job_log_len = 511

-- "[%s:%d/%d] %s"
abbrev pub job_line : ClusterJob → ℤ → Bytes → Bytes
job_line job next message =
    bytes "["
    ++ (job.tag
        ++ (bytes ":"
            ++ (print_int next ++ (bytes "/" ++ (print_int job.total ++ (bytes "] " ++ message))))))

-- "job progress %d/%d\n"
abbrev pub progress_text : ClusterJob → Bytes
progress_text job =
    bytes "job progress "
    ++ (print_int job.progress ++ (bytes "/" ++ (print_int job.total ++ bytes "\n")))

-- A job after a call, what the call returns, and its lines.
pub record Logged : Type 0 where
  pub value : ℤ
  pub job : ClusterJob
  pub lines : List Line

module _ {S : Type 0} where
  unfoldable pub cluster_job_log : ClusterJob → ℤ → Bytes → M S (List Line)
  unfolding cluster_vlogf
  cluster_job_log job prio message = do
    next ← add_int job.progress (pos 1)
    cluster_logf prio (job_line job next message)

  -- `vsnprintf` writes at most CLUSTER_JOB_LOG_LEN bytes, the NUL included.
  abbrev pub through_buffer : ClusterJob → ℤ → Bytes → M S Logged
  through_buffer job prio text = do
    lines ← cluster_job_log job prio (take (job_log_len - 1) text)
    pure (record { value = pos 0; job = job; lines = lines })

  unfoldable pub cluster_job_vlogf : Bool → ClusterJob → ℤ → Bytes → M S Logged
  unfolding cluster_job_log cluster_vlogf
  cluster_job_vlogf logbuf_ok job prio text =
      if job.logbuf
      then through_buffer job prio text
      else if logbuf_ok
      then through_buffer (record job { logbuf = true }) prio text
      else (do
        lines ← cluster_logf log_crit (bytes "failed to allocate buffer for job log messages\n")
        pure (record { value = negsuc 0; job = job; lines = lines }))

  -- `cluster_job_logf`
  abbrev pub cluster_job_logf : Bool → ClusterJob → ℤ → Bytes → M S Logged
  cluster_job_logf logbuf_ok job prio text = cluster_job_vlogf logbuf_ok job prio text

  -- A call that logs and returns 0.
  abbrev pub logs_zero : Bool → ClusterJob → ℤ → Bytes → M S Logged
  logs_zero logbuf_ok job prio text = do
    r ← cluster_job_logf logbuf_ok job prio text
    pure (record r { value = pos 0 })

  unfoldable pub cluster_job_set : Bool → ClusterJob → Bytes → Bytes → M S Logged
  unfolding cluster_job_vlogf
  cluster_job_set logbuf_ok job key value =
      logs_zero logbuf_ok job log_debug
        (bytes "job property " ++ (key ++ (bytes " => " ++ (value ++ bytes "\n"))))

  unfoldable pub cluster_job_wait : Bool → ClusterJob → M S Logged
  unfolding cluster_job_vlogf
  cluster_job_wait logbuf_ok job =
      logs_zero logbuf_ok job log_info (bytes "--- job is now in state WAIT ---\n")

  unfoldable pub cluster_job_begin : Bool → ClusterJob → M S Logged
  unfolding cluster_job_vlogf
  cluster_job_begin logbuf_ok job =
      logs_zero logbuf_ok job log_info (bytes "+++ job is now in state ACTIVE +++\n")

  unfoldable pub cluster_job_complete : Bool → ClusterJob → M S Logged
  unfolding cluster_job_vlogf
  cluster_job_complete logbuf_ok job =
      logs_zero logbuf_ok job log_info (bytes "--- job is now in state COMPLETE ---\n")

  unfoldable pub cluster_job_fail : Bool → ClusterJob → M S Logged
  unfolding cluster_job_vlogf
  cluster_job_fail logbuf_ok job =
      logs_zero logbuf_ok job log_info (bytes "*** job is now in state FAIL ***\n")

  abbrev pub logs_progress : Bool → ClusterJob → M S Logged
  logs_progress logbuf_ok job = logs_zero logbuf_ok job log_info (progress_text job)

  unfoldable pub cluster_job_set_total : Bool → ClusterJob → ℤ → M S Logged
  unfolding cluster_job_vlogf
  cluster_job_set_total logbuf_ok job total =
      if not (eq_ℤ job.total total)
      then logs_progress logbuf_ok (record job {
        total = total;
        progress = if ltb_ℤ total job.progress then pos 0 else job.progress;
      })
      else pure (record { value = pos 0; job = job; lines = [] })

  unfoldable pub cluster_job_set_progress : Bool → ClusterJob → ℤ → M S Logged
  unfolding cluster_job_vlogf
  cluster_job_set_progress logbuf_ok job progress =
      if ltb_ℤ job.total progress
      then logs_progress logbuf_ok (record job { progress = progress; total = progress })
      else if not (eq_ℤ job.progress progress)
      then logs_progress logbuf_ok (record job { progress = progress })
      else pure (record { value = pos 0; job = job; lines = [] })
