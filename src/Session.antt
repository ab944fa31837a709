-- ===== src/Session.antt =====
-- internal/agent/runtime/session
pub mod Sequence
pub mod Entry
pub mod Tree
pub mod Append
pub mod Valid
pub mod Context
pub mod Navigate
pub mod Details
pub mod Summary
pub mod Load
pub mod Fork
pub mod Examples
