-- ===== src/Service.antt =====
-- rust/crates/engine/src/lib.rs, the Engine, over the store of
-- rust/crates/storage-sqlite/src/lib.rs.
pub mod Store
pub mod Engine
pub mod Approvals
pub mod Integrity
pub mod Atomic
pub mod Filed
mod Tests
