-- ===== src/Workflow.antt =====
-- rust/crates/engine/src/lib.rs, from `WorkflowScope` on: the projection of Codex workflow events.
pub mod Types
pub mod Prompts
pub mod Delivery
pub mod Requests
pub mod Connection
pub mod Machine
pub mod Cases
pub mod Keyed
pub mod Queues
pub mod Reconnect
pub mod Answers
pub mod Spent
pub mod Sending
pub mod Turns
pub mod Lifecycle
mod Tests
