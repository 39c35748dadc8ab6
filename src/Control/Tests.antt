-- ===== src/Control/Tests.antt =====
-- The theorems on control interactions at a concrete store: one interaction of revision 2 and one
-- callback of it.
use codex_telegram_bridge.Prelude.{
  ◌≡◌, refl, arith, true, none, some, [], ◌∷◌, string_ord, success, is_blank, is_whitespace,
  nat_ord, pair_ord, option_ord, list_ord,
}
use codex_telegram_bridge.Prelude.Map.{get, insert, map_values}
use codex_telegram_bridge.Prelude.Int.{pos, ◌+ℤ◌, saturating_add, saturate, int_ord}
use codex_telegram_bridge.Control.Types.{ControlInteraction, ControlCallback, ControlStore}
use codex_telegram_bridge.Control.Interactions.{
  Content, replaced, replace_control_interaction, advanced, advance_row,
  advance_control_interaction,
}
use codex_telegram_bridge.Control.Claiming.{claim_row, claim_control_interaction_with_expiry}
use codex_telegram_bridge.Control.Callbacks.{consume_row, consume_control_callback}
use codex_telegram_bridge.Control.Claims.{
  advance-advance, advance_retires, claim-claim_exclusive, replace_stored,
}

abbrev interaction : ControlInteraction
interaction = record {
  scope_key = "new:1";
  kind = "new";
  revision = pos 2;
  phase = "choose";
  payload = "{}";
  user_id = pos 7;
  chat_id = pos 8;
  message_id = none;
  expires_at_ms = pos 900000;
  claimed_at_ms = none;
  created_at_ms = pos 10;
  updated_at_ms = pos 20;
}

abbrev callback : ControlCallback
callback = record {
  nonce = "n1";
  scope_key = some "new:1";
  revision = some (pos 2);
  user_id = pos 7;
  chat_id = pos 8;
  action = "pick";
  payload = "{}";
  expires_at_ms = pos 900000;
  consumed_at_ms = none;
  invalidated_at_ms = none;
  created_at_ms = pos 20;
}

abbrev store : ControlStore
store = record {
  interactions = record { entries = ("new:1", interaction) ∷ [] };
  callbacks = record { entries = ("n1", callback) ∷ [] };
}

abbrev content : Content
content = record {
  phase = "confirm";
  payload = "[]";
  user_id = pos 7;
  chat_id = pos 8;
  message_id = some (pos 4);
  expires_at_ms = pos 950000;
}

abbrev moved : ControlInteraction
moved = record interaction {
  revision = pos 3;
  phase = "confirm";
  payload = "[]";
  message_id = some (pos 4);
  expires_at_ms = pos 950000;
  updated_at_ms = pos 100;
}

advances :
    (advance_control_interaction "new:1" (pos 2) content (pos 100) store).0 ≡ success (some moved)
unfolding advance_control_interaction advance_row advanced get insert is_blank is_whitespace ◌+ℤ◌
advances = refl

advance-advance_example :
    let s' = (advance_control_interaction "new:1" (pos 2) content (pos 100) store).1 in
    advance_control_interaction "new:1" (pos 2) content (pos 101) s' ≡ (success none, s')
unfolding is_blank is_whitespace
advance-advance_example =
    advance-advance "new:1" (pos 2) content content (pos 100) (pos 101) store moved advances refl

retired_row :
    get "n1" (advance_control_interaction "new:1" (pos 2) content (pos 100) store).1.callbacks
    ≡ some (record callback { invalidated_at_ms = some (pos 100) })
unfolding advance_control_interaction advance_row advanced get insert map_values is_blank
    is_whitespace ◌+ℤ◌
retired_row = refl

advance_retires_example :
    let s' = (advance_control_interaction "new:1" (pos 2) content (pos 100) store).1 in
    consume_control_callback "n1" (pos 7) (pos 8) (pos 200) s' ≡ (none, s')
advance_retires_example =
    advance_retires "n1" "new:1" (pos 2) content (pos 100) (pos 7) (pos 8) (pos 200)
      (record callback { invalidated_at_ms = some (pos 100) }) store moved advances retired_row refl
      refl

claims_it :
    (claim_control_interaction_with_expiry "new:1" (pos 7) (pos 8) (pos 2) (pos 100) true store).0
    ≡ some (record interaction { claimed_at_ms = some (pos 100); updated_at_ms = pos 100 })
unfolding claim_control_interaction_with_expiry claim_row get insert
claims_it = refl

claim-claim_exclusive_example :
    let s' =
      (claim_control_interaction_with_expiry "new:1"
        (pos 7)
        (pos 8)
        (pos 2)
        (pos 100)
        true
        store).1 in
    claim_control_interaction_with_expiry "new:1" (pos 7) (pos 8) (pos 2) (pos 60099) true s'
    ≡ (none, s')
unfolding ◌+ℤ◌
claim-claim_exclusive_example =
    claim-claim_exclusive "new:1" (pos 7) (pos 8) (pos 2) (pos 100) (pos 7) (pos 8) (pos 2)
      (pos 60099) true true store
      (record interaction { claimed_at_ms = some (pos 100); updated_at_ms = pos 100 }) claims_it
      (ground arith) (ground arith)

consumes :
    (consume_control_callback "n1" (pos 7) (pos 8) (pos 200) store).0
    ≡ some (record callback { consumed_at_ms = some (pos 200) })
unfolding consume_control_callback consume_row get insert
consumes = refl

replaces :
    (replace_control_interaction "new:1" "new" content (pos 100) store).0
    ≡ success (record moved { created_at_ms = pos 10 })
unfolding replace_control_interaction replaced get insert map_values is_blank is_whitespace
    saturating_add saturate ◌+ℤ◌
replaces = refl

replace_stored_example :
    get "new:1" (replace_control_interaction "new:1" "new" content (pos 100) store).1.interactions
    ≡ some (record moved { updated_at_ms = pos 10 })
replace_stored_example =
    replace_stored "new:1" "new" content (pos 100) store (record moved { created_at_ms = pos 10 })
      replaces
