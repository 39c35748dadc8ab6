-- ===== src/Control/Interactions.antt =====
-- rust/crates/storage-sqlite/src/lib.rs: how interactions are replaced and advanced.
use codex_telegram_bridge.Prelude.{
  Bool, true, false, ◌&&◌, ◌||◌, if◌then◌else◌, Option, none, some, String, ◌==◌, string_ord,
  option_ord, is_blank, Outcome, success, failure,
}
use codex_telegram_bridge.Prelude.Map.{get, insert, map_values}
use codex_telegram_bridge.Prelude.Int.{ℤ, pos, ◌+ℤ◌, int_ord, ltb_ℤ, saturating_add}
use codex_telegram_bridge.Ports.{PortError, adapter}
use codex_telegram_bridge.Control.Types.{ControlInteraction, ControlCallback, ControlStore}

abbrev pub is_null : {A : Type 0} → Option A → Bool
is_null none = true
is_null (some _) = false

abbrev pub is_open : ControlCallback → Bool
is_open callback = is_null callback.consumed_at_ms && is_null callback.invalidated_at_ms

-- The update that invalidates the open callbacks of an interaction, of every revision or of one.
abbrev pub invalidate : ℤ → String → ControlCallback → ControlCallback
invalidate now_ms scope_key callback =
    if callback.scope_key == some scope_key && is_open callback
    then record callback { invalidated_at_ms = some now_ms }
    else callback

abbrev pub invalidate_revision : ℤ → String → ℤ → ControlCallback → ControlCallback
invalidate_revision now_ms scope_key revision callback =
    if callback.scope_key == some scope_key
      && callback.revision == some revision
      && is_open callback
    then record callback { invalidated_at_ms = some now_ms }
    else callback

-- What a caller writes into an interaction.
pub record Content : Type 0 where
  pub phase : String
  pub payload : String
  pub user_id : ℤ
  pub chat_id : ℤ
  pub message_id : Option ℤ
  pub expires_at_ms : ℤ

abbrev pub next_revision : Option ControlInteraction → ℤ
next_revision none = pos 1
next_revision (some existing) = saturating_add existing.revision (pos 1)

abbrev pub first_created : ℤ → Option ControlInteraction → ℤ
first_created now_ms none = now_ms
first_created now_ms (some existing) = existing.created_at_ms

-- The statement gives both columns the value of its tenth parameter, which is the moment of the
-- first creation, so a row that is replaced keeps that moment as its update. The answer says now.
unfoldable pub replaced :
    String → String → Content → ℤ → Option ControlInteraction → ControlInteraction
replaced scope_key kind c now_ms existing = record {
  scope_key = scope_key;
  kind = kind;
  revision = next_revision existing;
  phase = c.phase;
  payload = c.payload;
  user_id = c.user_id;
  chat_id = c.chat_id;
  message_id = c.message_id;
  expires_at_ms = c.expires_at_ms;
  claimed_at_ms = none;
  created_at_ms = first_created now_ms existing;
  updated_at_ms = first_created now_ms existing;
}

unfoldable pub replace_control_interaction :
    String
    → String
    → Content
    → ℤ
    → ControlStore
    → Outcome PortError ControlInteraction × ControlStore
unfolding replaced
replace_control_interaction scope_key kind c now_ms s =
    if is_blank scope_key || is_blank kind || is_blank c.phase
    then (failure (adapter "control interaction keys cannot be empty"), s)
    else let row = replaced scope_key kind c now_ms (get scope_key s.interactions) in
      (
        success (record row { updated_at_ms = now_ms }),
        record {
          interactions = insert scope_key row s.interactions;
          callbacks = map_values (invalidate now_ms scope_key) s.callbacks;
        },
      )

-- The rows that the conditional update changes.
abbrev pub may_advance : ℤ → Content → ℤ → ControlInteraction → Bool
may_advance expected_revision c now_ms row =
    row.revision == expected_revision
    && row.user_id == c.user_id
    && row.chat_id == c.chat_id
    && is_null row.claimed_at_ms
    && ltb_ℤ now_ms row.expires_at_ms

unfoldable pub advanced : Content → ℤ → ControlInteraction → ControlInteraction
advanced c now_ms row = record row {
  revision = row.revision +ℤ pos 1;
  phase = c.phase;
  payload = c.payload;
  message_id = c.message_id;
  expires_at_ms = c.expires_at_ms;
  claimed_at_ms = none;
  updated_at_ms = now_ms;
}

unfoldable pub advance_row :
    String
    → ℤ
    → Content
    → ℤ
    → Option ControlInteraction
    → ControlStore
    → Option ControlInteraction × ControlStore
unfolding advanced
advance_row scope_key expected_revision c now_ms none s = (none, s)
advance_row scope_key expected_revision c now_ms (some row) s =
    if may_advance expected_revision c now_ms row
    then (
      some (advanced c now_ms row),
      record {
        interactions = insert scope_key (advanced c now_ms row) s.interactions;
        callbacks = map_values (invalidate_revision now_ms scope_key expected_revision) s.callbacks;
      },
    )
    else (none, s)

unfoldable pub advance_control_interaction :
    String
    → ℤ
    → Content
    → ℤ
    → ControlStore
    → Outcome PortError (Option ControlInteraction) × ControlStore
unfolding advance_row
advance_control_interaction scope_key expected_revision c now_ms s =
    if is_blank scope_key || is_blank c.phase
    then (failure (adapter "control interaction keys cannot be empty"), s)
    else let (answer, s') =
        advance_row scope_key expected_revision c now_ms (get scope_key s.interactions) s in
      (success answer, s')
