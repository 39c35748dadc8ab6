-- ===== src/Control/Types.antt =====
-- rust/crates/storage-sqlite/src/lib.rs: the rows of the two tables. A
-- payload is its JSON text.
use codex_telegram_bridge.Prelude.{Option, String}
use codex_telegram_bridge.Prelude.Map.{Map}
use codex_telegram_bridge.Prelude.Int.{ℤ}

pub record ControlInteraction : Type 0 where
  pub scope_key : String
  pub kind : String
  pub revision : ℤ
  pub phase : String
  pub payload : String
  pub user_id : ℤ
  pub chat_id : ℤ
  pub message_id : Option ℤ
  pub expires_at_ms : ℤ
  pub claimed_at_ms : Option ℤ
  pub created_at_ms : ℤ
  pub updated_at_ms : ℤ

pub record ControlCallback : Type 0 where
  pub nonce : String
  pub scope_key : Option String
  pub revision : Option ℤ
  pub user_id : ℤ
  pub chat_id : ℤ
  pub action : String
  pub payload : String
  pub expires_at_ms : ℤ
  pub consumed_at_ms : Option ℤ
  pub invalidated_at_ms : Option ℤ
  pub created_at_ms : ℤ

-- The tables, by their primary keys.
pub record ControlStore : Type 0 where
  pub interactions : Map String ControlInteraction
  pub callbacks : Map String ControlCallback
