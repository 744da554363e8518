-- ===== src/Policy.antt =====
-- python/agent_comm_runtime/policy.py
pub mod Fault
pub mod Time
pub mod Fields
pub mod Scope
pub mod Action
pub mod Evaluate
pub mod Message
pub mod Encode
pub mod Render
mod Tests
