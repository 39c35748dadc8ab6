-- ===== src/Telegram.antt =====
-- The routing of Telegram updates: rust/crates/telegram/src/lib.rs.
pub mod Commands
pub mod Legacy
pub mod Types
pub mod Parsing
pub mod Authorization
pub mod Routing
pub mod Permitted
pub mod Owner
pub mod Bootstrap
pub mod Names
mod Tests
