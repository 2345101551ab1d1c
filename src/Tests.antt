-- ===== src/Tests.antt =====
-- Concrete runs: the theorems at inputs at which their conditions hold.
mod Samples
mod Layouts
mod Registry
mod Rows
mod Responses
mod Jobs
mod Connections
mod Database
mod Threads
mod Clusters
mod Schemas
mod Requests
mod Handles
mod ClusterTest
