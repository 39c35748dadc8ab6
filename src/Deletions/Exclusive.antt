-- ===== src/Deletions/Exclusive.antt =====
-- rust/crates/storage-sqlite/src/lib.rs: a claim of a deletion is exclusive while its lease runs.
use codex_telegram_bridge.Prelude.Map.{get, keys, Distinct, Distinct-insert}
use codex_telegram_bridge.Prelude.Int.{ℤ, i64_max, saturating_sub, pos, int_ord}
use codex_telegram_bridge.Prelude.{
  ℕ, ◌+◌, ◌<◌, ◌≡◌, sym, ◌∙◌, inl, inr, true, false, some, List, [], ◌∷◌, arith, leb, Bool-cases,
  Option-cases, All, string_ord, nat_ord, pair_ord, option_ord, list_ord,
}
use codex_telegram_bridge.Deletions.Table.{
  claim_row, deletion_claim_lease_ms, Key, DeletionRow, Table, is_unclaimed, is_due, due_rows,
  claimed_row, claim_each, claim_due_deletions,
}
use codex_telegram_bridge.Deletions.Leases.{
  held_at, still_claimed, held_at-get, claim_each-held, claim_each-holds,
}
use codex_telegram_bridge.Deletions.Claims.{gives, gives-due}

-- The moments and the limits of claims, all in the lease.
abbrev Within : ℕ → ℕ × ℕ → Type 0
Within at (later, limit) = later < at + 60000

unfoldable pub claim_all : List (ℕ × ℕ) → Table → Table
claim_all [] t = t
claim_all ((at, limit) ∷ rest) t = claim_all rest (claim_due_deletions (pos at) limit t).1

claim-held :
    (at later limit : ℕ) (key : Key) (t : Table)
    → later < at + 60000
    → held_at key t ≡ some (pos at)
    → held_at key (claim_due_deletions (pos later) limit t).1 ≡ some (pos at)
unfolding claim_due_deletions
claim-held at later limit key t soon held = elim (Bool-cases (leb limit i64_max)) [
  | inl small ↦
      rw (claim_due_deletions, small)
        (claim_each-held at later (due_rows (pos later) limit t) key t soon held)
  | inr large ↦ rw (claim_due_deletions, large) held
]

claim_all-held :
    (at : ℕ) (claims : List (ℕ × ℕ)) (key : Key) (t : Table)
    → All (Within at) claims
    → held_at key t ≡ some (pos at)
    → held_at key (claim_all claims t) ≡ some (pos at)
unfolding claim_all
claim_all-held at [] key t soon held = held
claim_all-held at ((later, limit) ∷ claims) key t soon held =
    claim_all-held at claims key _ soon.1 (claim-held at later limit key t soon.0 held)

claim-holds :
    (at limit : ℕ) (key : Key) (t : Table)
    → gives (pos at) limit key t ≡ true
    → held_at key (claim_due_deletions (pos at) limit t).1 ≡ some (pos at)
unfolding claim_due_deletions gives
claim-holds at limit key t h = elim (Bool-cases (leb limit i64_max)) [
  | inl small ↦
      rw (claim_due_deletions, small)
        (claim_each-holds at (due_rows (pos at) limit t) key t
          (rw (gives, claim_due_deletions, small) at h))
  | inr large ↦ absurd (ground (arith, (rw (gives, claim_due_deletions, large) at h)))
]

held-not_due :
    (at later limit : ℕ) (key : Key) (t : Table)
    → Distinct (keys t)
    → later < at + 60000
    → held_at key t ≡ some (pos at)
    → gives (pos later) limit key t ≡ false
unfolding is_due
held-not_due at later limit key t d soon held = elim (Bool-cases (gives (pos later) limit key t)) [
  | inr refused ↦ refused
  | inl given ↦
      let (row, e, due) = gives-due (pos later) limit key t d given in
      let mine = sym (held_at-get key row t e) ∙ held in
      absurd (ground (arith, still_claimed at later soon))
]

Distinct-claim_row :
    (now_ms : ℤ) (k : Key) (t : Table)
    → Distinct (keys t)
    → Distinct (keys (claim_row now_ms k t).1)
unfolding claim_row
Distinct-claim_row now_ms k t d = elim (Option-cases (get k t)) [
  | inl n ↦ rw (n, claim_row) d
  | inr (r, f) ↦
      elim (Bool-cases
        (is_unclaimed (saturating_sub now_ms deletion_claim_lease_ms) r.claimed_at_ms)) [
          | inr taken ↦ rw (f, claim_row, taken) d
          | inl free ↦ rw (f, claim_row, free) (Distinct-insert k (claimed_row now_ms r) t d)
        ]
]

Distinct-claim_each :
    (now_ms : ℤ) (rows : List (Key × DeletionRow)) (t : Table)
    → Distinct (keys t)
    → Distinct (keys (claim_each now_ms rows t).1)
unfolding claim_each
Distinct-claim_each now_ms [] t d = d
Distinct-claim_each now_ms ((k, row) ∷ rows) t d =
    let rest =
      Distinct-claim_each now_ms rows (claim_row now_ms k t).1 (Distinct-claim_row now_ms k t d) in
    elim (Bool-cases (claim_row now_ms k t).0) [
      | inl e ↦ rw (e, claim_each) rest
      | inr e ↦ rw (e, claim_each) rest
    ]

pub Distinct-claim :
    (now_ms : ℤ) (limit : ℕ) (t : Table)
    → Distinct (keys t)
    → Distinct (keys (claim_due_deletions now_ms limit t).1)
unfolding claim_due_deletions
Distinct-claim now_ms limit t d = elim (Bool-cases (leb limit i64_max)) [
  | inl small ↦
      rw (claim_due_deletions, small) (Distinct-claim_each now_ms (due_rows now_ms limit t) t d)
  | inr large ↦ rw (claim_due_deletions, large) d
]

Distinct-claim_all :
    (claims : List (ℕ × ℕ)) (t : Table) → Distinct (keys t) → Distinct (keys (claim_all claims t))
unfolding claim_all
Distinct-claim_all [] t d = d
Distinct-claim_all ((at, limit) ∷ rest) t d =
    Distinct-claim_all rest _ (Distinct-claim (pos at) limit t d)

-- After a claim that gives a deletion, and whatever claims follow, no claim gives it again before 60
-- seconds have passed since the first; the keys are distinct.
pub claims_exclusive :
    (at later limit again : ℕ) (claims : List (ℕ × ℕ)) (key : Key) (t : Table)
    → Distinct (keys t)
    → gives (pos at) limit key t ≡ true
    → All (Within at) claims
    → later < at + 60000
    → gives (pos later) again key (claim_all claims (claim_due_deletions (pos at) limit t).1)
      ≡ false
claims_exclusive at later limit again claims key t d given within soon =
    let first = (claim_due_deletions (pos at) limit t).1 in
    held-not_due at later again key (claim_all claims first)
      (Distinct-claim_all claims first (Distinct-claim (pos at) limit t d)) soon
      (claim_all-held at claims key first within (claim-holds at limit key t given))
