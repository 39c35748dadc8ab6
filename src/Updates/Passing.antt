-- ===== src/Updates/Passing.antt =====
-- rust/crates/cli/src/daemon.rs: an update that is not handled, and the ones after it.
use codex_telegram_bridge.Updates.Polling.{Poller, complete, done_prefix, confirm_each, confirm}
use codex_telegram_bridge.Updates.Offsets.{
  UpdateStore, processed_update_exists, record_processed_update,
}
use codex_telegram_bridge.Prelude.Map.{get, contains, get_entry, remove_entry, remove, get-insert}
use codex_telegram_bridge.Prelude.Int.{ℤ, ltb_ℤ, int_ord, saturating_add, pos}
use codex_telegram_bridge.Prelude.{
  String, ◌≡◌, refl, sym, subst, inl, inr, Bool, true, false, ◌&&◌, Option, some, List, [], ◌∷◌,
  arith, Bool-cases, is_blank, all, ◌==◌, string_ord, nat_ord, pair_ord, option_ord, list_ord, ◌||◌,
}
use codex_telegram_bridge.Updates.Confirming.{
  is_before, IsAscending, before-found, confirm_each-keeps,
}

-- Up to `j`, every update but `i` is done.
abbrev pub is_done_until : ℤ → ℤ → List (ℤ × Bool) → Bool
is_done_until i j [] = true
is_done_until i j ((k, done) ∷ es) = (done || k == i || ltb_ℤ j k) && is_done_until i j es

before-removed :
    (i k : ℤ) (es : List (ℤ × Bool))
    → is_before k es ≡ true
    → is_before k (remove_entry i es) ≡ true
before-removed i k [] h = refl
before-removed i k ((m, done) ∷ es) h = ground (arith, before-removed i k es)

removed-IsAscending :
    (i : ℤ) (es : List (ℤ × Bool)) → IsAscending es → IsAscending (remove_entry i es)
removed-IsAscending i [] asc = tt
removed-IsAscending i ((k, done) ∷ es) asc = elim (Bool-cases (k == i)) [
  | inl e ↦ rw (e, remove_entry) (removed-IsAscending i es asc.1)
  | inr e ↦ rw (e, remove_entry) (before-removed i k es asc.0, removed-IsAscending i es asc.1)
]

removed_absent :
    (i : ℤ) (es : List (ℤ × Bool)) → contains i (done_prefix (remove_entry i es)) ≡ false
removed_absent i [] = refl
removed_absent i ((k, done) ∷ es) = ground (arith, removed_absent i es)

reached :
    (i j : ℤ) (es : List (ℤ × Bool))
    → ltb_ℤ i j ≡ true
    → IsAscending es
    → is_done_until i j es ≡ true
    → get_entry j es ≡ some true
    → contains j (done_prefix (remove_entry i es)) ≡ true
reached i j [] h asc all e = absurd (ground arith)
reached i j ((k, done) ∷ es) h asc all e = ground (
  arith,
  reached i j es h asc.1,
  before-found k j true es asc.0,
  int_ord.eq_of_cmp k j,
  int_ord.eq_of_cmp k i,
  int_ord.cmp_refl i,
)

-- The offset after these updates were confirmed.
abbrev last_offset : List ℤ → Option ℤ → Option ℤ
last_offset [] offset = offset
last_offset (id ∷ ids) offset = last_offset ids (some (saturating_add id (pos 1)))

-- The offset follows an update that is not before `j`.
abbrev pub IsPast : ℤ → Option ℤ → Type 0
IsPast j offset = (l : ℤ) × (offset ≡ some (saturating_add l (pos 1))) × (ltb_ℤ l j ≡ false)

confirm_each-offset :
    (bot : String) (clock : ℤ → ℤ) (ids : List ℤ) (s : UpdateStore) (p : Poller)
    → is_blank bot ≡ false
    → (confirm_each bot clock ids s p).1.offset ≡ last_offset ids p.offset
unfolding confirm_each record_processed_update
confirm_each-offset bot clock [] s p named = refl
confirm_each-offset bot clock (id ∷ ids) s p named = ground (
  arith,
  confirm_each-offset bot clock ids (record_processed_update bot id (clock id) s).1
      (record { pending = remove id p.pending; offset = some (saturating_add id (pos 1)) }),
)

last-IsPast :
    (k : ℤ) (es : List (ℤ × Bool))
    → IsAscending es
    → is_before k es ≡ true
    → IsPast k (last_offset (done_prefix es) (some (saturating_add k (pos 1))))
last-IsPast k [] asc h = (k, refl, ground arith)
last-IsPast k ((m, false) ∷ es) asc h = (k, refl, ground arith)
last-IsPast k ((m, true) ∷ es) asc h =
    let (l, e, late) = last-IsPast m es asc.1 asc.0 in (l, e, ground arith)

found-IsPast :
    (j : ℤ) (es : List (ℤ × Bool)) (offset : Option ℤ)
    → IsAscending es
    → contains j (done_prefix es) ≡ true
    → IsPast j (last_offset (done_prefix es) offset)
found-IsPast j [] offset asc h = absurd (ground arith)
found-IsPast j ((k, false) ∷ es) offset asc h = absurd (ground arith)
found-IsPast j ((k, true) ∷ es) offset asc h = elim (Bool-cases (k == j)) [
  | inl e ↦
      subst (λ x. IsPast x (last_offset (done_prefix es) (some (saturating_add k (pos 1)))))
        (int_ord.eq_of_cmp k j (ground arith)) (last-IsPast k es asc.1 asc.0)
  | inr e ↦ found-IsPast j es (some (saturating_add k (pos 1))) asc.1 (ground arith)
]

recorded :
    (bot : String) (id j at_ms : ℤ) (s : UpdateStore)
    → is_blank bot ≡ false
    → ((id == j) || processed_update_exists bot j s) ≡ true
    → processed_update_exists bot j (record_processed_update bot id at_ms s).1 ≡ true
unfolding processed_update_exists record_processed_update
recorded bot id j at_ms s named h = ground (
  arith,
  get-insert (bot, id) (bot, j) at_ms s.processed_updates,
  string_ord.cmp_refl bot,
  int_ord.eq_of_cmp id j,
)

-- Where the bot has a name, no record fails.
confirm_each-next :
    (bot : String) (clock : ℤ → ℤ) (id : ℤ) (ids : List ℤ) (s : UpdateStore) (p : Poller)
    → is_blank bot ≡ false
    → confirm_each bot clock (id ∷ ids) s p
      ≡ confirm_each bot clock ids
          (record_processed_update bot id (clock id) s).1
          (record { pending = remove id p.pending; offset = some (saturating_add id (pos 1)) })
unfolding confirm_each record_processed_update
confirm_each-next bot clock id ids s p named = ground arith

all_recorded :
    (bot : String) (clock : ℤ → ℤ) (j : ℤ) (ids : List ℤ) (s : UpdateStore) (p : Poller)
    → is_blank bot ≡ false
    → (contains j ids || processed_update_exists bot j s) ≡ true
    → processed_update_exists bot j (confirm_each bot clock ids s p).0 ≡ true
unfolding confirm_each
all_recorded bot clock j [] s p named h = h
all_recorded bot clock j (id ∷ ids) s p named h =
    let s' = (record_processed_update bot id (clock id) s).1 in
    let there : (contains j ids || processed_update_exists bot j s') ≡ true =
      ground (arith, recorded bot id j (clock id) s named) in
    rw (confirm_each-next bot clock id ids s p named) (
      all_recorded bot clock j ids s'
        (record { pending = remove id p.pending; offset = some (saturating_add id (pos 1)) }) named
        there)

-- An update that is reported as not handled does not hold back a later one: where every update up to
-- the later one but itself is done, the next pass records the later one and moves the offset past
-- it, and the one that was not handled is recorded after it only if it was before. The bot has a
-- name, and the pending updates stand in ascending order.
pub unhandled_is_passed :
    (bot : String) (clock : ℤ → ℤ) (i j : ℤ) (s : UpdateStore) (p : Poller)
    → is_blank bot ≡ false
    → IsAscending p.pending.entries
    → ltb_ℤ i j ≡ true
    → is_done_until i j p.pending.entries ≡ true
    → get j p.pending ≡ some true
    → let (s', p') = confirm bot clock s (complete i false p) in
      IsPast j p'.offset
      × (processed_update_exists bot j s' ≡ true)
      × (processed_update_exists bot i s' ≡ processed_update_exists bot i s)
unfolding confirm complete remove get
unhandled_is_passed bot clock i j s p named asc h all e =
    let es = remove_entry i p.pending.entries in
    let there = reached i j p.pending.entries h asc all e in
    let p0 : Poller = record p { pending = record { entries = es } } in
    (
      subst (IsPast j) (sym (confirm_each-offset bot clock (done_prefix es) s p0 named))
          (found-IsPast j es p.offset (removed-IsAscending i p.pending.entries asc) there),
      all_recorded bot clock j (done_prefix es) s p0 named (ground arith),
      confirm_each-keeps bot clock i (done_prefix es) s p0 (removed_absent i p.pending.entries),
    )
