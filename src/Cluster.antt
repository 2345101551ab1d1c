-- ===== src/Cluster.antt =====
-- cluster.c: the configuration of a cluster connection, what it answers about its place in the
-- cluster, and the call to the application when that place changes.
pub mod Settings
pub mod Registry
pub mod Queries
