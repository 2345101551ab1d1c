-- ===== src/Libetcd.antt =====
-- libetcd/: the client of the etcd registry.
pub mod Path
pub mod Key
pub mod Payload
pub mod Http
pub mod Directory
pub mod Requests
pub mod Calls
pub mod Handles
