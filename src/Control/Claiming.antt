-- ===== src/Control/Claiming.antt =====
-- rust/crates/storage-sqlite/src/lib.rs: how interactions are claimed, released, deleted and given a
-- message.
use codex_telegram_bridge.Prelude.{
  Bool, true, false, not, ◌&&◌, if◌then◌else◌, Option, none, some, String, ◌==◌, string_ord,
  option_ord, Outcome, success, failure,
}
use codex_telegram_bridge.Prelude.Map.{get, insert, remove, map_values}
use codex_telegram_bridge.Prelude.Int.{ℤ, pos, int_ord, ltb_ℤ, leb_ℤ, saturating_sub}
use codex_telegram_bridge.Ports.{PortError, adapter}
use codex_telegram_bridge.Control.Types.{ControlInteraction, ControlStore}
use codex_telegram_bridge.Control.Interactions.{is_null, invalidate}

-- A claim lasts CONTROL_CLAIM_LEASE_MS.
abbrev pub is_free : ℤ → Option ℤ → Bool
is_free now_ms none = true
is_free now_ms (some claimed_at_ms) = leb_ℤ claimed_at_ms (saturating_sub now_ms (pos 60000))

abbrev pub may_claim : ℤ → ℤ → ℤ → ℤ → Bool → ControlInteraction → Bool
may_claim user_id chat_id revision now_ms live row =
    row.user_id == user_id
    && row.chat_id == chat_id
    && row.revision == revision
    && is_free now_ms row.claimed_at_ms
    && (if live then ltb_ℤ now_ms row.expires_at_ms else leb_ℤ row.expires_at_ms now_ms)

unfoldable pub claim_row :
    String
    → ℤ
    → ℤ
    → ℤ
    → ℤ
    → Bool
    → Option ControlInteraction
    → ControlStore
    → Option ControlInteraction × ControlStore
claim_row scope_key user_id chat_id revision now_ms live none s = (none, s)
claim_row scope_key user_id chat_id revision now_ms live (some row) s =
    let row' = record row { claimed_at_ms = some now_ms; updated_at_ms = now_ms } in
    if may_claim user_id chat_id revision now_ms live row
    then (some row', record s { interactions = insert scope_key row' s.interactions })
    else (none, s)

unfoldable pub claim_control_interaction_with_expiry :
    String → ℤ → ℤ → ℤ → ℤ → Bool → ControlStore → Option ControlInteraction × ControlStore
unfolding claim_row
claim_control_interaction_with_expiry scope_key user_id chat_id revision now_ms live s =
    claim_row scope_key user_id chat_id revision now_ms live (get scope_key s.interactions) s

unfoldable pub claim_control_interaction :
    String → ℤ → ℤ → ℤ → ℤ → ControlStore → Option ControlInteraction × ControlStore
unfolding claim_control_interaction_with_expiry
claim_control_interaction scope_key user_id chat_id revision now_ms s =
    claim_control_interaction_with_expiry scope_key user_id chat_id revision now_ms true s

unfoldable pub claim_expired_control_interaction :
    String → ℤ → ℤ → ℤ → ℤ → ControlStore → Option ControlInteraction × ControlStore
unfolding claim_control_interaction_with_expiry
claim_expired_control_interaction scope_key user_id chat_id revision now_ms s =
    claim_control_interaction_with_expiry scope_key user_id chat_id revision now_ms false s

unfoldable pub delete_control_interaction : String → ℤ → ControlStore → Bool × ControlStore
delete_control_interaction scope_key now_ms s = (
  not (is_null (get scope_key s.interactions)),
  record {
    interactions = remove scope_key s.interactions;
    callbacks = map_values (invalidate now_ms scope_key) s.callbacks;
  },
)

unfoldable pub release_row :
    String → ℤ → ℤ → ℤ → Option ControlInteraction → ControlStore → Bool × ControlStore
release_row scope_key revision claim_started_ms now_ms none s = (false, s)
release_row scope_key revision claim_started_ms now_ms (some row) s =
    if row.revision == revision && row.claimed_at_ms == some claim_started_ms
    then (
      true,
      record s {
        interactions =
            insert scope_key (record row { claimed_at_ms = none; updated_at_ms = now_ms })
              s.interactions;
      },
    )
    else (false, s)

unfoldable pub release_control_interaction_claim :
    String → ℤ → ℤ → ℤ → ControlStore → Bool × ControlStore
unfolding release_row
release_control_interaction_claim scope_key revision claim_started_ms now_ms s =
    release_row scope_key revision claim_started_ms now_ms (get scope_key s.interactions) s

unfoldable pub message_row :
    String → ℤ → ℤ → ℤ → Option ControlInteraction → ControlStore → Bool × ControlStore
message_row scope_key revision message_id now_ms none s = (false, s)
message_row scope_key revision message_id now_ms (some row) s =
    if row.revision == revision
    then (
      true,
      record s {
        interactions =
            insert scope_key (record row { message_id = some message_id; updated_at_ms = now_ms })
              s.interactions;
      },
    )
    else (false, s)

unfoldable pub update_control_interaction_message :
    String → ℤ → ℤ → ℤ → ControlStore → Outcome PortError Bool × ControlStore
unfolding message_row
update_control_interaction_message scope_key revision message_id now_ms s =
    if leb_ℤ message_id (pos 0)
    then (failure (adapter "control interaction message id must be positive"), s)
    else let (changed, s') =
        message_row scope_key revision message_id now_ms (get scope_key s.interactions) s in
      (success changed, s')
