-- ===== src/Core.antt =====
-- internal/agent/core: the queues of messages, the agent that owns them, its loop and its tools.
pub mod Queue
pub mod Registry
pub mod Agent
pub mod Loop
mod Examples
