-- ===== src/Remote.antt =====
-- python/agent_comm_runtime/remote.py: the bridge from paired consoles to the local store.
pub mod State
pub mod Parse
pub mod Pairing
pub mod Invoke
pub mod Conversation
pub mod Route
pub mod Handle
pub mod Turns
pub mod Mailbox
pub mod Steps
pub mod Tests
