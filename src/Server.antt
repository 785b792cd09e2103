-- ===== src/Server.antt =====
-- The HTTP handlers of the panel and its background loop, internal/server.
pub mod Query
pub mod Users
pub mod Writes
pub mod Cluster
pub mod Runs
pub mod Routes
pub mod LastRun
pub mod Statuses
pub mod Secrets
pub mod Mux
pub mod Index
