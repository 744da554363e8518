-- ===== src/Social.antt =====
-- python/agent_comm_runtime/social.py: friendship, blocking, and the durable outbox of the owner.
pub mod State
pub mod Peers
pub mod Outbox
pub mod Inbox
pub mod Respond
pub mod Ask
pub mod Remote
pub mod Block
pub mod Mixin
pub mod Spec
pub mod Steps
mod Tests
