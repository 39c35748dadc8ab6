-- ===== src/Control/Claims.antt =====
-- rust/crates/storage-sqlite/src/lib.rs: of several callers that saw the same revision one wins.
use codex_telegram_bridge.Prelude.{
  ◌≡◌, arith, false, Option, none, some, String, ◌==◌, string_ord, option_ord, Bool, success,
  Bool-cases, is_blank, ◌||◌, inl, inr,
}
use codex_telegram_bridge.Prelude.Map.{get, get-insert_self}
use codex_telegram_bridge.Prelude.Int.{
  leb_ℤ, ◌≤ℤ◌, ◌<ℤ◌, ◌-ℤ◌, saturating_sub, saturate, ℤ, pos, int_ord, ◌+ℤ◌, saturating_sub,
  saturate, ◌<ℤ◌, ◌-ℤ◌, leb_ℤ,
}
use codex_telegram_bridge.Control.Types.{ControlInteraction, ControlCallback, ControlStore}
use codex_telegram_bridge.Control.Interactions.{
  Content, advanced, advance_row, advance_control_interaction, replace_control_interaction,
  replaced,
}
use codex_telegram_bridge.Control.Claiming.{claim_control_interaction_with_expiry, claim_row}
use codex_telegram_bridge.Control.Callbacks.{consume_row, consume_control_callback}

next_differs : (r : ℤ) → (r +ℤ pos 1 == r) ≡ false
unfolding ◌+ℤ◌
next_differs r = ground arith

-- The interaction of this scope has moved on from this revision.
IsPast : String → ℤ → ControlStore → Type 0
IsPast scope_key revision s =
    (row : ControlInteraction) × (get scope_key s.interactions ≡ some row)
    × ((row.revision == revision) ≡ false)

advance_row-IsPast :
    (scope_key : String) (r : ℤ) (c : Content) (now_ms : ℤ) (o : Option ControlInteraction)
    (s : ControlStore) (row : ControlInteraction)
    → (advance_row scope_key r c now_ms o s).0 ≡ some row
    → IsPast scope_key r (advance_row scope_key r c now_ms o s).1
unfolding IsPast advance_row advanced
advance_row-IsPast scope_key r c now_ms none s row h = ground arith
advance_row-IsPast scope_key r c now_ms (some x) s row h = (
  advanced c now_ms x,
  ground (arith, get-insert_self scope_key (advanced c now_ms x) s.interactions),
  ground (arith, next_differs x.revision, int_ord.eq_of_cmp x.revision r),
)

past_refused :
    (scope_key : String) (r : ℤ) (c : Content) (now_ms : ℤ) (s : ControlStore)
    → IsPast scope_key r s
    → advance_row scope_key r c now_ms (get scope_key s.interactions) s ≡ (none, s)
unfolding IsPast advance_row
past_refused scope_key r c now_ms s (row, e, h) = rw e (ground arith)

past_unusable :
    (nonce scope_key : String) (r user_id chat_id now_ms : ℤ) (callback : ControlCallback)
    (s : ControlStore)
    → IsPast scope_key r s
    → callback.scope_key ≡ some scope_key
    → callback.revision ≡ some r
    → consume_row nonce user_id chat_id now_ms (some callback) s ≡ (none, s)
unfolding IsPast consume_row
past_unusable nonce scope_key r user_id chat_id now_ms callback s (row, e, h) k v =
    ground (arith, e, h)

advance-IsPast :
    (scope_key : String) (r : ℤ) (c : Content) (now_ms : ℤ) (s : ControlStore)
    (row : ControlInteraction)
    → (advance_control_interaction scope_key r c now_ms s).0 ≡ success (some row)
    → IsPast scope_key r (advance_control_interaction scope_key r c now_ms s).1
unfolding advance_control_interaction
advance-IsPast scope_key r c now_ms s row =
    elim (Bool-cases (is_blank scope_key || is_blank c.phase)) [
      | inl e ↦ rw e (λ h. ground arith)
      | inr e ↦ rw e (λ h.
          advance_row-IsPast scope_key r c now_ms (get scope_key s.interactions) s row
            (ground (arith, h)))
    ]

advance_keyed :
    (scope_key : String) (r : ℤ) (c : Content) (now_ms : ℤ) (s : ControlStore)
    (row : ControlInteraction)
    → (advance_control_interaction scope_key r c now_ms s).0 ≡ success (some row)
    → is_blank scope_key ≡ false
unfolding advance_control_interaction
advance_keyed scope_key r c now_ms s row h = ground arith

-- Of two callers that saw the same revision only one advances the interaction: after an advance
-- that succeeds, another from the same revision changes nothing and gives no interaction.
pub advance-advance :
    (scope_key : String) (r : ℤ) (c c' : Content) (now_ms now_ms' : ℤ) (s : ControlStore)
    (row : ControlInteraction)
    → (advance_control_interaction scope_key r c now_ms s).0 ≡ success (some row)
    → is_blank c'.phase ≡ false
    → let s' = (advance_control_interaction scope_key r c now_ms s).1 in
      advance_control_interaction scope_key r c' now_ms' s' ≡ (success none, s')
unfolding advance_control_interaction
advance-advance scope_key r c c' now_ms now_ms' s row h named =
    let p = advance-IsPast scope_key r c now_ms s row h in
    ground
      (arith, past_refused scope_key r c' now_ms' _ p, advance_keyed scope_key r c now_ms s row h)

-- After an advance that succeeds no callback of the interaction's revision before is usable, by whom
-- and when ever: to consume it gives nothing and changes nothing.
pub advance_retires :
    (nonce scope_key : String) (r : ℤ) (c : Content) (now_ms user_id chat_id now_ms' : ℤ)
    (callback : ControlCallback) (s : ControlStore) (row : ControlInteraction)
    → (advance_control_interaction scope_key r c now_ms s).0 ≡ success (some row)
    → get nonce (advance_control_interaction scope_key r c now_ms s).1.callbacks ≡ some callback
    → callback.scope_key ≡ some scope_key
    → callback.revision ≡ some r
    → let s' = (advance_control_interaction scope_key r c now_ms s).1 in
      consume_control_callback nonce user_id chat_id now_ms' s' ≡ (none, s')
unfolding consume_control_callback
advance_retires nonce scope_key r c now_ms user_id chat_id now_ms' callback s row h e k v = rw e (
    past_unusable nonce scope_key r user_id chat_id now_ms' callback _
      (advance-IsPast scope_key r c now_ms s row h) k v)

lease_runs :
    (then_ms now_ms : ℤ)
    → pos 0 ≤ℤ now_ms
    → now_ms <ℤ then_ms +ℤ pos 60000
    → leb_ℤ then_ms (saturating_sub now_ms (pos 60000)) ≡ false
unfolding ◌+ℤ◌ saturating_sub saturate ◌-ℤ◌
lease_runs then_ms now_ms p h = ground arith

claimed_row_busy :
    (scope_key : String) (user_id chat_id r now_ms : ℤ) (live : Bool)
    (o : Option ControlInteraction) (s : ControlStore) (row : ControlInteraction)
    → (claim_row scope_key user_id chat_id r now_ms live o s).0 ≡ some row
    → (row.claimed_at_ms ≡ some now_ms)
      × (get scope_key (claim_row scope_key user_id chat_id r now_ms live o s).1.interactions
          ≡ some row)
unfolding claim_row
claimed_row_busy scope_key user_id chat_id r now_ms live none s row h = ground arith
claimed_row_busy scope_key user_id chat_id r now_ms live (some x) s row h = ground (
  arith,
  get-insert_self scope_key (record x { claimed_at_ms = some now_ms; updated_at_ms = now_ms })
      s.interactions,
)

-- A claim is exclusive while its lease of 60 seconds runs: a later claim of the interaction in that
-- time, at a moment since 1970, by whom ever, of what revision ever and as live or as expired, gives
-- nothing and changes nothing.
pub claim-claim_exclusive :
    (scope_key : String) (user_id chat_id r now_ms user_id' chat_id' r' now_ms' : ℤ)
    (live live' : Bool) (s : ControlStore) (row : ControlInteraction)
    → (claim_control_interaction_with_expiry scope_key user_id chat_id r now_ms live s).0 ≡ some row
    → pos 0 ≤ℤ now_ms'
    → now_ms' <ℤ now_ms +ℤ pos 60000
    → let s' =
        (claim_control_interaction_with_expiry scope_key user_id chat_id r now_ms live s).1 in
      claim_control_interaction_with_expiry scope_key user_id' chat_id' r' now_ms' live' s'
      ≡ (none, s')
unfolding claim_control_interaction_with_expiry claim_row
claim-claim_exclusive scope_key user_id chat_id r now_ms user_id' chat_id' r' now_ms' live live' s
      row h since soon =
    let (c, e) =
      claimed_row_busy scope_key user_id chat_id r now_ms live (get scope_key s.interactions) s row
        h in
    busy_refused _ row e c
  where
    refused :
        (row : ControlInteraction) (s' : ControlStore)
        → row.claimed_at_ms ≡ some now_ms
        → claim_row scope_key user_id' chat_id' r' now_ms' live' (some row) s' ≡ (none, s')
    refused row s' c = ground (arith, lease_runs now_ms now_ms' since soon)

    busy_refused :
        (s' : ControlStore) (row : ControlInteraction)
        → get scope_key s'.interactions ≡ some row
        → row.claimed_at_ms ≡ some now_ms
        → claim_row scope_key user_id' chat_id' r' now_ms' live' (get scope_key s'.interactions) s'
          ≡ (none, s')
    busy_refused s' row e c = rw e (refused row s' c)

-- The row that a replacement stores is the one it answers with but for the moment of its update,
-- which is stored as the moment of the interaction's creation.
pub replace_stored :
    (scope_key kind : String) (c : Content) (now_ms : ℤ) (s : ControlStore) (a : ControlInteraction)
    → (replace_control_interaction scope_key kind c now_ms s).0 ≡ success a
    → get scope_key (replace_control_interaction scope_key kind c now_ms s).1.interactions
      ≡ some (record a { updated_at_ms = a.created_at_ms })
unfolding replace_control_interaction replaced
replace_stored scope_key kind c now_ms s a h =
    elim (Bool-cases (is_blank scope_key || is_blank kind || is_blank c.phase)) [
      | inl e ↦ ground (arith, e)
      | inr e ↦ ground (
        arith,
        e,
        get-insert_self scope_key (replaced scope_key kind c now_ms (get scope_key s.interactions))
            s.interactions,
      )
    ]
