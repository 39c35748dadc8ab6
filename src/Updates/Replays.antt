-- ===== src/Updates/Replays.antt =====
-- rust/crates/storage-sqlite/src/lib.rs: an update is dispatched once, and the offset never goes back.
use codex_telegram_bridge.Prelude.{
  ◌≡◌, arith, true, false, Option, none, some, String, List, [], ◌∷◌, string_ord, pair_ord,
  is_blank, success,
}
use codex_telegram_bridge.Prelude.Map.{get, get-insert, get-insert_self}
use codex_telegram_bridge.Prelude.Int.{ℤ, pos, int_ord, saturating_add, ◌≤ℤ◌}
use codex_telegram_bridge.Updates.Offsets.{
  PollOffset, UpdateStore, processed_update_exists, raised, record_processed_update,
}

-- The updates as they arrive: the bot, the update and the moment.
unfoldable pub record_all : List (String × ℤ × ℤ) → UpdateStore → UpdateStore
record_all [] s = s
record_all ((bot, id, at_ms) ∷ rest) s = record_all rest (record_processed_update bot id at_ms s).1

record_keeps :
    (bot other : String) (id other_id at_ms : ℤ) (s : UpdateStore)
    → processed_update_exists other other_id s ≡ true
    → processed_update_exists other other_id (record_processed_update bot id at_ms s).1 ≡ true
unfolding processed_update_exists record_processed_update
record_keeps bot other id other_id at_ms s h =
    ground (arith, get-insert (bot, id) (other, other_id) at_ms s.processed_updates)

record_all-keeps :
    (us : List (String × ℤ × ℤ)) (bot : String) (id : ℤ) (s : UpdateStore)
    → processed_update_exists bot id s ≡ true
    → processed_update_exists bot id (record_all us s) ≡ true
unfolding record_all
record_all-keeps [] bot id s h = h
record_all-keeps ((b, i, at_ms) ∷ us) bot id s h =
    record_all-keeps us bot id (record_processed_update b i at_ms s).1
      (record_keeps b bot i id at_ms s h)

recorded :
    (bot : String) (id at_ms : ℤ) (s : UpdateStore)
    → (record_processed_update bot id at_ms s).0 ≡ success true
    → (processed_update_exists bot id (record_processed_update bot id at_ms s).1 ≡ true)
      × (is_blank bot ≡ false)
unfolding processed_update_exists record_processed_update
recorded bot id at_ms s h = ground (arith, get-insert_self (bot, id) at_ms s.processed_updates)

refused :
    (bot : String) (id at_ms : ℤ) (s : UpdateStore)
    → processed_update_exists bot id s ≡ true
    → is_blank bot ≡ false
    → record_processed_update bot id at_ms s ≡ (success false, s)
unfolding record_processed_update
refused bot id at_ms s h named = ground arith

-- An update is new once: after it was recorded as new, and whatever updates came since, to record it
-- again says that it is a replay and changes nothing.
pub record_once :
    (bot : String) (id at_ms later_ms : ℤ) (us : List (String × ℤ × ℤ)) (s : UpdateStore)
    → (record_processed_update bot id at_ms s).0 ≡ success true
    → let s' = record_all us (record_processed_update bot id at_ms s).1 in
      record_processed_update bot id later_ms s' ≡ (success false, s')
record_once bot id at_ms later_ms us s h =
    let (there, named) = recorded bot id at_ms s h in
    refused bot id later_ms _ (record_all-keeps us bot id _ there) named

-- Has an offset of at least this much.
abbrev pub IsRaised : ℤ → Option PollOffset → Type 0
IsRaised n none = ⊥
IsRaised n (some offset) = n ≤ℤ offset.next_update_id

raised-IsRaised :
    (next at_ms n : ℤ) (o : Option PollOffset)
    → IsRaised n o
    → IsRaised n (some (raised next at_ms o))
unfolding raised
raised-IsRaised next at_ms n none h = absurd h
raised-IsRaised next at_ms n (some offset) h = ground arith

record-IsRaised :
    (bot other : String) (id at_ms n : ℤ) (s : UpdateStore)
    → IsRaised n (get other s.poll_offsets)
    → IsRaised n (get other (record_processed_update bot id at_ms s).1.poll_offsets)
unfolding record_processed_update
record-IsRaised bot other id at_ms n s h = ground (
  arith,
  raised-IsRaised (saturating_add id (pos 1)) at_ms n (get bot s.poll_offsets),
  get-insert bot other (raised (saturating_add id (pos 1)) at_ms (get bot s.poll_offsets))
      s.poll_offsets,
  string_ord.eq_of_cmp bot other,
)

-- The offset of a bot never goes back, whatever updates are recorded, of whatever bots.
pub record_all-IsRaised :
    (us : List (String × ℤ × ℤ)) (bot : String) (n : ℤ) (s : UpdateStore)
    → IsRaised n (get bot s.poll_offsets)
    → IsRaised n (get bot (record_all us s).poll_offsets)
unfolding record_all
record_all-IsRaised [] bot n s h = h
record_all-IsRaised ((b, i, at_ms) ∷ us) bot n s h =
    record_all-IsRaised us bot n (record_processed_update b i at_ms s).1
      (record-IsRaised b bot i at_ms n s h)
