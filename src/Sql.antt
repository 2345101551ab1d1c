-- ===== src/Sql.antt =====
-- engines/sql.c: clusters whose members meet in a table of an SQL database.
pub mod Client
pub mod Balance
pub mod Session
pub mod Fork
pub mod Threads
pub mod Migration
