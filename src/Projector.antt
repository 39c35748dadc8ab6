-- ===== src/Projector.antt =====
-- The projection of app-server events: rust/crates/engine/src/projector.rs.
mod Tests
pub mod Types
pub mod Reading
pub mod Tasks
pub mod Subagents
pub mod Handlers
pub mod Apply
pub mod Bounds
pub mod Histories
pub mod Lookup
pub mod Dropping
pub mod Trimming
pub mod Terminal
pub mod Turns
pub mod Errors
pub mod Eviction
