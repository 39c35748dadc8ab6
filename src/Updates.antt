-- ===== src/Updates.antt =====
-- Telegram updates that were seen: rust/crates/storage-sqlite/src/lib.rs, and the poller of
-- rust/crates/cli/src/daemon.rs.
pub mod Offsets
pub mod Replays
pub mod Polling
pub mod Confirming
pub mod Passing
mod Tests
