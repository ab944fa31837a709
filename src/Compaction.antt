-- ===== src/Compaction.antt =====
-- internal/agent/runtime/compaction: which part of a conversation is summarised, and which is kept.
pub mod Branch
pub mod Usage
pub mod Cut
pub mod Examples
pub mod Files
pub mod Path
pub mod Prepare
