-- ===== src/Updates/Confirming.antt =====
-- rust/crates/cli/src/daemon.rs: how far the poller confirms.
use codex_telegram_bridge.Updates.Polling.{
  Poller, done_prefix, confirmed_update_prefix, confirm_each, confirm,
}
use codex_telegram_bridge.Updates.Offsets.{
  UpdateStore, processed_update_exists, record_processed_update,
}
use codex_telegram_bridge.Prelude.Map.{get, contains, get_entry, remove, get-insert}
use codex_telegram_bridge.Prelude.Int.{ℤ, ltb_ℤ, int_ord, saturating_add, pos}
use codex_telegram_bridge.Prelude.{
  String, ◌≡◌, refl, Bool, true, false, ◌&&◌, some, List, [], ◌∷◌, arith, ◌==◌, string_ord, nat_ord,
  pair_ord, option_ord, list_ord,
}

abbrev pub is_before : ℤ → List (ℤ × Bool) → Bool
is_before id [] = true
is_before id ((j, done) ∷ es) = ltb_ℤ id j && is_before id es

-- A BTreeMap iterates in ascending order.
abbrev pub IsAscending : List (ℤ × Bool) → Type 0
IsAscending [] = Unit
IsAscending ((id, done) ∷ es) = (is_before id es ≡ true) × IsAscending es

pub before-found :
    (id i : ℤ) (b : Bool) (es : List (ℤ × Bool))
    → is_before id es ≡ true
    → get_entry i es ≡ some b
    → ltb_ℤ id i ≡ true
before-found id i b [] h e = absurd (ground arith)
before-found id i b ((j, done) ∷ es) h e =
    ground (arith, before-found id i b es, int_ord.eq_of_cmp j i)

prefix_below :
    (i j : ℤ) (es : List (ℤ × Bool))
    → IsAscending es
    → get_entry i es ≡ some false
    → ltb_ℤ j i ≡ false
    → contains j (done_prefix es) ≡ false
prefix_below i j [] asc e h = refl
prefix_below i j ((k, true) ∷ es) (before, asc) e h = ground (
  arith,
  prefix_below i j es asc,
  before-found k i false es before,
  int_ord.eq_of_cmp k j,
  int_ord.eq_of_cmp k i,
)
prefix_below i j ((k, false) ∷ es) (before, asc) e h = refl

record-other :
    (bot : String) (id j at_ms : ℤ) (s : UpdateStore)
    → (id == j) ≡ false
    → processed_update_exists bot j (record_processed_update bot id at_ms s).1
      ≡ processed_update_exists bot j s
unfolding processed_update_exists record_processed_update
record-other bot id j at_ms s h =
    ground (arith, get-insert (bot, id) (bot, j) at_ms s.processed_updates, string_ord.cmp_refl bot)

pub confirm_each-keeps :
    (bot : String) (clock : ℤ → ℤ) (j : ℤ) (ids : List ℤ) (s : UpdateStore) (p : Poller)
    → contains j ids ≡ false
    → processed_update_exists bot j (confirm_each bot clock ids s p).0
      ≡ processed_update_exists bot j s
unfolding confirm_each
confirm_each-keeps bot clock j [] s p h = refl
confirm_each-keeps bot clock j (id ∷ ids) s p h = ground (
  arith,
  record-other bot id j (clock id) s,
  confirm_each-keeps bot clock j ids (record_processed_update bot id (clock id) s).1
      (record { pending = remove id p.pending; offset = some (saturating_add id (pos 1)) }),
)

-- While an update waits for its handler, a pass over the confirmed ones records neither it nor any
-- later update, where the pending updates stand in ascending order.
pub confirm_blocks :
    (bot : String) (clock : ℤ → ℤ) (i j : ℤ) (s : UpdateStore) (p : Poller)
    → IsAscending p.pending.entries
    → get i p.pending ≡ some false
    → ltb_ℤ j i ≡ false
    → processed_update_exists bot j (confirm bot clock s p).0 ≡ processed_update_exists bot j s
unfolding confirm get
confirm_blocks bot clock i j s p asc e h =
    confirm_each-keeps bot clock j (confirmed_update_prefix p.pending) s p
      (prefix_below i j p.pending.entries asc e h)
