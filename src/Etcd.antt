-- ===== src/Etcd.antt =====
-- engines/etcd.c: clusters whose members meet in a directory of an etcd registry.
pub mod Keys
pub mod Directory
pub mod Client
pub mod Accounts
pub mod Balance
pub mod Session
pub mod Fork
pub mod Threads
