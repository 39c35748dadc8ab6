-- ===== src/Deletions.antt =====
-- Messages that are to be deleted: rust/crates/storage-sqlite/src/lib.rs.
pub mod Table
pub mod Claims
pub mod Leases
pub mod Exclusive
pub mod Backoff
pub mod Retries
pub mod Abandoned
mod Tests
