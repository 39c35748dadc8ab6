-- ===== src/Control.antt =====
-- Control interactions and their callbacks: rust/crates/storage-sqlite/src/lib.rs.
pub mod Types
pub mod Interactions
pub mod Claiming
pub mod Callbacks
pub mod Claims
mod Tests
