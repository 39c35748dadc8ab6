-- ===== src/Deletions/Leases.antt =====
-- rust/crates/storage-sqlite/src/lib.rs: a row that is claimed stays claimed while its lease runs.
use codex_telegram_bridge.Deletions.Claims.{has_key}
use codex_telegram_bridge.Prelude.Int.{ℤ, ◌-ℤ◌, saturate, saturating_sub, pos, int_ord}
use codex_telegram_bridge.Prelude.{
  ℕ, ◌+◌, ◌<◌, ◌≡◌, inl, inr, true, false, Option, some, arith, Bool-cases, Option-cases, ◌>>=◌,
  string_ord, nat_ord, pair_ord, option_ord, list_ord, refl, sym, ap, ◌∙◌, List, [], ◌∷◌,
  if◌then◌else◌, ◌==◌, eq_iff, eq_self, subst,
}
use codex_telegram_bridge.Deletions.Table.{
  claim_row, deletion_claim_lease_ms, Key, Table, is_unclaimed, DeletionRow,
  scheduled_deletion_from_row, claimed_row, claim_each,
}
use codex_telegram_bridge.Prelude.Map.{get, insert, get-insert}

-- When the row of the key was claimed.
unfoldable pub held_at : Key → Table → Option ℤ
held_at key t = get key t >>= λ row. row.claimed_at_ms

-- A claim of 60 seconds ago or less is in the way.
pub still_claimed :
    (at later : ℕ)
    → later < at + 60000
    → is_unclaimed (saturating_sub (pos later) deletion_claim_lease_ms) (some (pos at)) ≡ false
unfolding saturating_sub saturate ◌-ℤ◌
still_claimed at later soon = ground arith

held_at-insert :
    (k key : Key) (row : DeletionRow) (t : Table)
    → held_at key (insert k row t) ≡ (if k == key then row.claimed_at_ms else held_at key t)
unfolding held_at
held_at-insert k key row t = elim (Bool-cases (k == key)) [
  | inl same ↦ rw (get-insert k key row t, same) refl
  | inr differs ↦ rw (get-insert k key row t, differs) refl
]

pub held_at-get :
    (key : Key) (row : DeletionRow) (t : Table)
    → get key t ≡ some row
    → held_at key t ≡ row.claimed_at_ms
unfolding held_at
held_at-get key row t e = rw e refl

-- A claim within 60 seconds leaves a row that is held as it is.
claim_row-held :
    (at later : ℕ) (k key : Key) (t : Table)
    → later < at + 60000
    → held_at key t ≡ some (pos at)
    → held_at key (claim_row (pos later) k t).1 ≡ some (pos at)
unfolding claim_row
claim_row-held at later k key t soon held = elim (Option-cases (get k t)) [
  | inl n ↦ rw (n, claim_row) held
  | inr (r, f) ↦
      elim (Bool-cases
        (is_unclaimed (saturating_sub (pos later) deletion_claim_lease_ms) r.claimed_at_ms)) [
          | inr taken ↦ rw (f, claim_row, taken) held
          | inl free ↦ elim (Bool-cases (k == key)) [
            | inr differs ↦
                rw (f, claim_row, free, held_at-insert k key (claimed_row (pos later) r) t, differs)
                  held
            | inl same ↦
                let mine =
                  sym (held_at-get k r t f)
                  ∙ ap (λ x. held_at x t) ((eq_iff k key).0 same)
                  ∙ held in
                let busy = still_claimed at later soon in
                absurd (ground (arith, sym free ∙ ap (is_unclaimed _) mine ∙ busy))
          ]
        ]
]

-- A row is held once its update succeeded.
claim_row-holds :
    (at_ms : ℤ) (key : Key) (t : Table)
    → (claim_row at_ms key t).0 ≡ true
    → held_at key (claim_row at_ms key t).1 ≡ some at_ms
unfolding claim_row
claim_row-holds at_ms key t h = elim (Option-cases (get key t)) [
  | inl n ↦ absurd (ground (arith, (rw (n, claim_row) at h)))
  | inr (r, f) ↦
      elim (Bool-cases
        (is_unclaimed (saturating_sub at_ms deletion_claim_lease_ms) r.claimed_at_ms)) [
          | inr taken ↦ absurd (ground (arith, (rw (f, claim_row, taken) at h)))
          | inl free ↦
              rw (f, claim_row, free, held_at-insert key key (claimed_row at_ms r) t, eq_self key)
                refl
        ]
]

pub claim_each-held :
    (at later : ℕ) (rows : List (Key × DeletionRow)) (key : Key) (t : Table)
    → later < at + 60000
    → held_at key t ≡ some (pos at)
    → held_at key (claim_each (pos later) rows t).1 ≡ some (pos at)
unfolding claim_each
claim_each-held at later [] key t soon held = held
claim_each-held at later ((k, row) ∷ rows) key t soon held =
    let rest =
      claim_each-held at later rows key (claim_row (pos later) k t).1 soon
        (claim_row-held at later k key t soon held) in
    ground arith

claim_each_changed :
    (now_ms : ℤ) (k : Key) (row : DeletionRow) (rows : List (Key × DeletionRow)) (t : Table)
    → (claim_row now_ms k t).0 ≡ true
    → let rest = claim_each now_ms rows (claim_row now_ms k t).1 in
      claim_each now_ms ((k, row) ∷ rows) t
      ≡ (scheduled_deletion_from_row k (claimed_row now_ms row) ∷ rest.0, rest.1)
unfolding claim_each
claim_each_changed now_ms k row rows t h = rw (h, claim_each) refl

claim_each_same :
    (now_ms : ℤ) (k : Key) (row : DeletionRow) (rows : List (Key × DeletionRow)) (t : Table)
    → (claim_row now_ms k t).0 ≡ false
    → claim_each now_ms ((k, row) ∷ rows) t ≡ claim_each now_ms rows (claim_row now_ms k t).1
unfolding claim_each
claim_each_same now_ms k row rows t h = rw (h, claim_each) refl

no_rows : (at : ℕ) (key : Key) (t : Table) → has_key key (claim_each (pos at) [] t).0 ≡ true → ⊥
unfolding claim_each
no_rows at key t h = ground arith

-- Each deletion that the loop gives is held.
pub claim_each-holds :
    (at : ℕ) (rows : List (Key × DeletionRow)) (key : Key) (t : Table)
    → has_key key (claim_each (pos at) rows t).0 ≡ true
    → held_at key (claim_each (pos at) rows t).1 ≡ some (pos at)
unfolding scheduled_deletion_from_row
claim_each-holds at [] key t h = absurd (no_rows at key t h)
claim_each-holds at ((k, row) ∷ rows) key t h =
    let after = (claim_row (pos at) k t).1 in
    elim (Bool-cases (claim_row (pos at) k t).0) [
      | inr same ↦
          let step = claim_each_same (pos at) k row rows t same in
          rw step (claim_each-holds at rows key after (rw (sym step) h))
      | inl changed ↦
          let step = claim_each_changed (pos at) k row rows t changed in
          elim (Bool-cases (k == key)) [
            | inl mine ↦
                let held =
                  claim_each-held at at rows k after (omega arith)
                    (claim_row-holds (pos at) k t changed) in
                rw step (
                  subst (λ x. held_at x (claim_each (pos at) rows after).1 ≡ some (pos at))
                    ((eq_iff k key).0 mine) held)
            | inr other ↦
                let among = ap (λ r. has_key key r.0) (sym step) ∙ h in
                rw step (claim_each-holds at rows key after (rw other at among))
          ]
    ]
