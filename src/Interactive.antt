-- ===== src/Interactive.antt =====
-- Questions and approvals that the app-server asks for: rust/crates/app-server/src/lib.rs.
pub mod Types
pub mod Decisions
pub mod Requests
pub mod Offers
pub mod Answers
pub mod Replies
mod Tests
