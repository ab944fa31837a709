-- ===== src/Ai.antt =====
-- internal/agent/ai: the message protocol of the agent. Types holds the data of types.go and the
-- readers of message.go and content.go, Validate the `Validate` methods.
pub mod Estimate
pub mod Types
pub mod Validate
