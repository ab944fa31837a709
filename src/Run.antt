-- ===== src/Run.antt =====
-- internal/api/run_manager.go: the runs of the HTTP API.
pub mod Stream
pub mod Manager
mod Examples
