-- ===== src/Job/Log/Lines.antt =====
-- What the calls of a job log, and what else they do.
use libcluster.Prelude.{
  Bool, true, false, not, ◌||◌, List, [], ◌∷◌, ◌++◌, take, ◌≡◌, refl, arith, inl, inr, Bool-cases,
  ap, if◌then◌else◌,
}
use libcluster.Prelude.Int.{ℤ, pos, ◌+ℤ◌, fits_int, ltb_ℤ, leb_ℤ, eq_ℤ}
use libcluster.Prelude.Bytes.{Bytes}
use libcluster.Prelude.Text.{bytes}
use libcluster.Process.{
  free, overflow, Cluster, World, Outcome, ok, fault, cluster_rdlock, cluster_unlock,
}
use libcluster.Job as Job
use libcluster.Job.{ClusterJob}
use libcluster.Job.Log.{
  logs_zero, progress_text, Logged, cluster_job_log, cluster_job_vlogf, cluster_job_set_progress,
  cluster_job_set_total,
}
use libcluster.Prelude.Decimal.{print_int}
use libcluster.Logging.{Line, to_logger, to_stderr, log_info, cluster_vlogf, cluster_vlogf_locked}

-- The lines of one call of cluster_job_vlogf: to the application's logger the message behind the job's
-- tag and progress, cut to 510 bytes, or the complaint that there is no buffer; without a logger only
-- what is at LOG_CRIT or worse, on stderr.
abbrev pub said : Bool → ClusterJob → ℤ → Bytes → Cluster → List Line
said logbuf_ok job prio text c =
    let counted : Bytes =
      bytes "["
      ++ (job.tag
          ++ (bytes ":"
              ++ (print_int (job.progress +ℤ pos 1)
                  ++ (bytes "/" ++ (print_int job.total ++ (bytes "] " ++ take 510 text)))))) in
    let complaint : Bytes = bytes "failed to allocate buffer for job log messages\n" in
    if job.logbuf || logbuf_ok
    then (if c.logger
        then to_logger prio counted ∷ []
        else if leb_ℤ prio (pos 2)
        then to_stderr (bytes "libcluster<" ++ (print_int prio ++ (bytes ">: " ++ counted))) ∷ []
        else [])
    else (if c.logger
        then to_logger (pos 2) complaint ∷ []
        else to_stderr (bytes "libcluster<2>: " ++ complaint) ∷ [])

-- The message about a job's progress.
abbrev pub progress_message : ClusterJob → Bytes
progress_message job =
    bytes "job progress "
    ++ (print_int job.progress ++ (bytes "/" ++ (print_int job.total ++ bytes "\n")))

-- Does a progress that is set differ from the old one, and what is the job then?
abbrev pub progresses : ClusterJob → ℤ → Bool
progresses job progress = ltb_ℤ job.total progress || not (eq_ℤ job.progress progress)

abbrev pub progressed : ClusterJob → ℤ → ClusterJob
progressed job progress = record job {
  progress = progress;
  total = if ltb_ℤ job.total progress then progress else job.total;
}

-- A job with a new total.
abbrev totalled : ClusterJob → ℤ → ClusterJob
totalled job total = record job {
  total = total;
  progress = if ltb_ℤ total job.progress then pos 0 else job.progress;
}

module _ {S : Type 0} where
  job_vlogf-said :
      (logbuf_ok : Bool) (job : ClusterJob) (prio : ℤ) (text : Bytes) (w : World S)
      → w.lock ≡ free
      → fits_int (job.progress +ℤ pos 1) ≡ true
      → cluster_job_vlogf logbuf_ok job prio text w
        ≡ ok (
          record {
            value = (Job.cluster_job_vlogf logbuf_ok job).0;
            job = (Job.cluster_job_vlogf logbuf_ok job).1;
            lines = said logbuf_ok job prio text w.cluster;
          },
          w,
        )
  unfolding cluster_job_vlogf cluster_job_log cluster_vlogf Job.cluster_job_vlogf cluster_rdlock
      cluster_unlock cluster_vlogf_locked print_int
  job_vlogf-said logbuf_ok job prio text w unlocked fits = ground arith

  job_vlogf_overflows :
      (logbuf_ok : Bool) (job : ClusterJob) (prio : ℤ) (text : Bytes) (w : World S)
      → job.logbuf || logbuf_ok ≡ true
      → fits_int (job.progress +ℤ pos 1) ≡ false
      → cluster_job_vlogf logbuf_ok job prio text w ≡ fault overflow
  unfolding cluster_job_vlogf cluster_job_log
  job_vlogf_overflows logbuf_ok job prio text w buffer wide = ground arith

  -- What logs_zero makes of the outcome of the log call.
  abbrev zeroed : Outcome (Logged × World S) → Outcome (Logged × World S)
  zeroed o = elim o [ ok (r, w) ↦ ok (record r { value = pos 0 }, w) | fault x ↦ fault x ]

  -- Every call that logs and returns 0.
  logs_zero-said :
      (logbuf_ok : Bool) (job : ClusterJob) (prio : ℤ) (text : Bytes) (w : World S)
      → w.lock ≡ free
      → fits_int (job.progress +ℤ pos 1) ≡ true
      → logs_zero logbuf_ok job prio text w
        ≡ ok (
          record {
            value = pos 0;
            job = Job.logged logbuf_ok job;
            lines = said logbuf_ok job prio text w.cluster;
          },
          w,
        )
  logs_zero-said logbuf_ok job prio text w unlocked fits =
      ap zeroed (job_vlogf-said logbuf_ok job prio text w unlocked fits)

  logs_zero_overflows :
      (logbuf_ok : Bool) (job : ClusterJob) (prio : ℤ) (text : Bytes) (w : World S)
      → job.logbuf || logbuf_ok ≡ true
      → fits_int (job.progress +ℤ pos 1) ≡ false
      → logs_zero logbuf_ok job prio text w ≡ fault overflow
  logs_zero_overflows logbuf_ok job prio text w buffer wide =
      ap zeroed (job_vlogf_overflows logbuf_ok job prio text w buffer wide)

  set_total-said :
      (logbuf_ok : Bool) (job : ClusterJob) (total : ℤ) (w : World S)
      → w.lock ≡ free
      → fits_int ((totalled job total).progress +ℤ pos 1) ≡ true
      → cluster_job_set_total logbuf_ok job total w
        ≡ ok (
          record {
            value = (Job.cluster_job_set_total logbuf_ok job total).0;
            job = (Job.cluster_job_set_total logbuf_ok job total).1;
            lines =
                if not (eq_ℤ job.total total)
                then said logbuf_ok
                    (totalled job total)
                    log_info
                    (progress_text (totalled job total))
                    w.cluster
                else [];
          },
          w,
        )
  unfolding cluster_job_set_total Job.cluster_job_set_total
  set_total-said logbuf_ok job total w unlocked fits = elim (Bool-cases (eq_ℤ job.total total)) [
    | inl same ↦ rw same refl
    | inr other ↦ rw other (
        logs_zero-said logbuf_ok (totalled job total) log_info (progress_text (totalled job total))
          w unlocked fits)
  ]

  -- cluster_job_set_progress for a progress p, with the cluster's lock free and p + 1 within
  -- int, returns with the world as it was, and with the value and the job that the model without
  -- lines gives. Where p is greater than the total or is not the old progress, one message is
  -- for the job with the new progress (and, where p is greater, the new total). If there is a
  -- buffer or one can be had, it is the text "job progress p/total", cut to 510 bytes, behind
  -- the tag, p + 1 and the total, and goes to the logger at LOG_INFO, or nowhere without a
  -- logger; else it is a complaint at LOG_CRIT, to the logger or to stderr. In any other case
  -- there is none.
  pub set_progress-said :
      (logbuf_ok : Bool) (job : ClusterJob) (progress : ℤ) (w : World S)
      → w.lock ≡ free
      → fits_int (progress +ℤ pos 1) ≡ true
      → cluster_job_set_progress logbuf_ok job progress w
        ≡ ok (
          record {
            value = (Job.cluster_job_set_progress logbuf_ok job progress).0;
            job = (Job.cluster_job_set_progress logbuf_ok job progress).1;
            lines =
                if progresses job progress
                then said logbuf_ok
                    (progressed job progress)
                    log_info
                    (progress_message (progressed job progress))
                    w.cluster
                else [];
          },
          w,
        )
  unfolding cluster_job_set_progress Job.cluster_job_set_progress
  set_progress-said logbuf_ok job progress w unlocked fits =
      let raised : ClusterJob = record job { progress = progress; total = progress } in
      let moved : ClusterJob = record job { progress = progress } in
      elim (Bool-cases (ltb_ℤ job.total progress)) [
        | inl beyond ↦
            rw beyond
              (logs_zero-said logbuf_ok raised log_info (progress_text raised) w unlocked fits)
        | inr within ↦ elim (Bool-cases (eq_ℤ job.progress progress)) [
          | inl same ↦ rw (within, same) refl
          | inr other ↦
              rw (within, other)
                (logs_zero-said logbuf_ok moved log_info (progress_text moved) w unlocked fits)
        ]
      ]

  -- cluster_job_set_progress for a progress p whose p + 1 is not within int, where p is greater
  -- than the total or is not the old progress, and the job has a log buffer or one can be had:
  -- the log line adds 1 to the progress, and int overflows.
  set_progress_overflows :
      (logbuf_ok : Bool) (job : ClusterJob) (progress : ℤ) (w : World S)
      → job.logbuf || logbuf_ok ≡ true
      → progresses job progress ≡ true
      → fits_int (progress +ℤ pos 1) ≡ false
      → cluster_job_set_progress logbuf_ok job progress w ≡ fault overflow
  unfolding cluster_job_set_progress
  set_progress_overflows logbuf_ok job progress w buffer new wide =
      let raised : ClusterJob = record job { progress = progress; total = progress } in
      let moved : ClusterJob = record job { progress = progress } in
      elim (Bool-cases (ltb_ℤ job.total progress)) [
        | inl beyond ↦
            rw beyond
              (logs_zero_overflows logbuf_ok raised log_info (progress_text raised) w buffer wide)
        | inr within ↦
            let changed : not (eq_ℤ job.progress progress) ≡ true = ground arith in
            rw (within, changed)
              (logs_zero_overflows logbuf_ok moved log_info (progress_text moved) w buffer wide)
      ]
