-- ===== src/Security.antt =====
-- The write lock: rust/crates/storage-sqlite/src/lib.rs, the row `rust_security_state` and the
-- table `rust_totp_recovery_codes`, and rust/crates/cli/src/security.rs, the TotpManager.
pub mod State
pub mod Recovery
pub mod Leases
pub mod Hotp
pub mod Verify
pub mod Replay
pub mod Locking
pub mod Unlocking
mod Tests
