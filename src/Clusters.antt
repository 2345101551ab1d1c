-- ===== src/Clusters.antt =====
-- cluster.c: the list of all clusters of the process, what makes and frees a cluster, and the hooks
-- that walk the list around `fork()`.
pub mod Links
pub mod Store
pub mod Create
pub mod Fork
