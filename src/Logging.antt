-- ===== src/Logging.antt =====
-- cluster.c and engines/sql.c: where a log line goes. The text that `vfprintf` makes of a format and
-- its arguments is given; ENABLE_LOGGING is taken to be set.
use libcluster.Prelude.{List, [], ◌∷◌, ◌++◌, ◌≡◌, arith, if◌then◌else◌}
use libcluster.Prelude.Int.{ℤ, pos, leb_ℤ}
use libcluster.Prelude.Bytes.{Bytes}
use libcluster.Prelude.Decimal.{print_int}
use libcluster.Prelude.Text.{bytes}
use libcluster.Process.{
  Cluster, World, M, pure, ◌>>=◌, ◌>>◌, get_cluster, cluster_rdlock, cluster_unlock, free, ok,
}

abbrev pub log_crit : ℤ
log_crit = pos 2

abbrev pub log_err : ℤ
log_err = pos 3

abbrev pub log_notice : ℤ
log_notice = pos 5

abbrev pub log_info : ℤ
log_info = pos 6

abbrev pub log_debug : ℤ
log_debug = pos 7

-- A call of the application's callback, or what is printed.
pub data Line : Type 0 where
  to_logger : (priority : ℤ) (text : Bytes) → Line
  to_stderr : (text : Bytes) → Line

unfoldable pub cluster_vlogf_locked : ℤ → Bytes → Cluster → List Line
unfolding print_int
cluster_vlogf_locked priority text c =
    if c.logger
    then to_logger priority text ∷ []
    else if leb_ℤ priority log_crit
    then to_stderr (bytes "libcluster<" ++ (print_int priority ++ (bytes ">: " ++ text))) ∷ []
    else []

-- `cluster_logf_locked_`
abbrev pub cluster_logf_locked : ℤ → Bytes → Cluster → List Line
cluster_logf_locked priority text c = cluster_vlogf_locked priority text c

module _ {S : Type 0} where
  unfoldable pub cluster_vlogf : ℤ → Bytes → M S (List Line)
  unfolding cluster_rdlock cluster_unlock cluster_vlogf_locked
  cluster_vlogf priority text = do
    cluster_rdlock
    c ← get_cluster
    cluster_unlock
    pure (cluster_vlogf_locked priority text c)

  -- `cluster_logf_`
  abbrev pub cluster_logf : ℤ → Bytes → M S (List Line)
  cluster_logf priority text = cluster_vlogf priority text

-- The callbacks that engines/sql.c gives to libsql, which run with the connection locked.
unfoldable pub cluster_sql_querylog : Bytes → Cluster → List Line
unfolding cluster_vlogf_locked
cluster_sql_querylog query c =
    if c.flags.verbose
    then cluster_logf_locked log_debug (bytes "libcluster: SQL query: " ++ (query ++ bytes "\n")) c
    else []

unfoldable pub cluster_sql_errorlog : Bytes → Bytes → Cluster → List Line
unfolding cluster_vlogf_locked
cluster_sql_errorlog sqlstate message c =
    cluster_logf_locked log_err
      (bytes "libcluster: SQL: [" ++ (sqlstate ++ (bytes "] " ++ (message ++ bytes "\n")))) c

unfoldable pub cluster_sql_noticelog : Bytes → Cluster → List Line
unfolding cluster_vlogf_locked
cluster_sql_noticelog message c =
    cluster_logf_locked log_notice (bytes "libcluster: SQL: " ++ message) c

module _ {S : Type 0} where
  -- On an unlocked connection a line leaves everything as it was.
  cluster_logf_unlocked :
      (priority : ℤ) (text : Bytes) (w : World S)
      → w.lock ≡ free
      → cluster_logf priority text w ≡ ok (cluster_vlogf_locked priority text w.cluster, w)
  unfolding cluster_vlogf cluster_rdlock cluster_unlock
  cluster_logf_unlocked priority text w unlocked = ground arith
