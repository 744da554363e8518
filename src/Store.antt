-- ===== src/Store.antt =====
-- python/agent_comm_runtime/store.py: contacts, mandates, owner decisions and durable sends.
pub mod State
pub mod Records
pub mod Same
pub mod Requests
pub mod Prepare
pub mod Tasks
pub mod Contacts
pub mod Verdicts
pub mod Wire
pub mod Actions
pub mod Current
pub mod Confirm
pub mod Respond
pub mod Once
pub mod Reserve
pub mod Dispatch
pub mod Spec
pub mod Steps
pub mod Fixture
pub mod Tests
