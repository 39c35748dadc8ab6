-- ===== src/Deletions/Retries.antt =====
-- rust/crates/storage-sqlite/src/lib.rs: deletions that fail again and again are abandoned.
use codex_telegram_bridge.Prelude.Int.{ℤ, ◌≤ℤ◌, +ℤ_parts, i64_max, saturating_sub, pos, int_ord}
use codex_telegram_bridge.Prelude.{
  ℕ, suc, String, ◌≡◌, sym, ap, ◌∙◌, subst, inl, inr, true, false, not, ◌&&◌, Option, none, some,
  List, [], ◌∷◌, arith, leb, if◌then◌else◌, Bool-cases, Option-cases, has_some, ◌==◌, eq_iff,
  string_ord, nat_ord, pair_ord, option_ord, list_ord,
}
use codex_telegram_bridge.Deletions.Table.{
  claim_row, deletion_claim_lease_ms, Key, DeletionRow, Table, is_unclaimed, due_rows, claimed_row,
  claim_each, claim_due_deletions, complete_deletion, retried_row, retry_deletion,
}
use codex_telegram_bridge.Prelude.Map.{get, insert, get-remove, get-insert}

-- Operations on the table, but for a new schedule of a deletion.
pub data Work : Type 0 where
  claim_work : ℤ → ℕ → Work
  complete_work : Key → Work
  retry_work : Key → String → ℤ → Work

unfoldable pub perform : Work → Table → Table
unfolding claim_due_deletions complete_deletion retry_deletion
perform (claim_work now_ms limit) t = (claim_due_deletions now_ms limit t).1
perform (complete_work key) t = (complete_deletion key t).1
perform (retry_work key error_class now_ms) t = (retry_deletion key error_class now_ms t).1

unfoldable pub perform_all : List Work → Table → Table
unfolding perform
perform_all [] t = t
perform_all (w ∷ ws) t = perform_all ws (perform w t)

-- How many retries of this deletion there were after as many before.
abbrev pub retries_of : Key → List Work → ℕ → ℕ
retries_of key [] n = n
retries_of key (claim_work now_ms limit ∷ ws) n = retries_of key ws n
retries_of key (complete_work k ∷ ws) n = retries_of key ws n
retries_of key (retry_work k error_class now_ms ∷ ws) n =
    retries_of key ws (if k == key then suc n else n)

-- A row that was tried as often, and is abandoned after eight times.
abbrev pub HasTried : ℕ → Option DeletionRow → Type 0
HasTried n none = Unit
HasTried n (some row) =
    (pos n ≤ℤ row.attempts) × ((leb 8 n && not (has_some row.abandoned_at_ms)) ≡ false)

retried_row-HasTried :
    (n : ℕ) (error_class : String) (now_ms : ℤ) (row : DeletionRow)
    → HasTried n (some row)
    → HasTried (suc n) (some (retried_row error_class now_ms row))
unfolding retried_row
retried_row-HasTried n error_class now_ms row h = ground (arith, +ℤ_parts row.attempts (pos 1))

insert-HasTried :
    (n : ℕ) (k key : Key) (row : DeletionRow) (t : Table)
    → ((k == key) ≡ true → HasTried n (some row))
    → ((k == key) ≡ false → HasTried n (get key t))
    → HasTried n (get key (insert k row t))
insert-HasTried n k key row t mine others = elim (Bool-cases (k == key)) [
  | inl same ↦ rw (get-insert k key row t, same) (mine same)
  | inr differs ↦ rw (get-insert k key row t, differs) (others differs)
]

-- The row that was read under an equal key.
read-HasTried :
    (n : ℕ) (k key : Key) (row : DeletionRow) (t : Table)
    → get k t ≡ some row
    → (k == key) ≡ true
    → HasTried n (get key t)
    → HasTried n (some row)
read-HasTried n k key row t e same h =
    subst (HasTried n) (ap (λ x. get x t) (sym ((eq_iff k key).0 same)) ∙ e) h

claim_row-HasTried :
    (n : ℕ) (now_ms : ℤ) (k key : Key) (t : Table)
    → HasTried n (get key t)
    → HasTried n (get key (claim_row now_ms k t).1)
unfolding claim_row
claim_row-HasTried n now_ms k key t h = elim (Option-cases (get k t)) [
  | inl e ↦ rw (e, claim_row) h
  | inr (row, e) ↦
      elim (Bool-cases
        (is_unclaimed (saturating_sub now_ms deletion_claim_lease_ms) row.claimed_at_ms)) [
          | inr taken ↦ rw (e, claim_row, taken) h
          | inl free ↦
              rw (e, claim_row, free)
                (insert-HasTried n k key (claimed_row now_ms row) t
                  (λ same. read-HasTried n k key row t e same h) (λ differs. h))
        ]
]

claim_each-HasTried :
    (n : ℕ) (now_ms : ℤ) (rows : List (Key × DeletionRow)) (key : Key) (t : Table)
    → HasTried n (get key t)
    → HasTried n (get key (claim_each now_ms rows t).1)
unfolding claim_each
claim_each-HasTried n now_ms [] key t h = h
claim_each-HasTried n now_ms ((k, row) ∷ rows) key t h =
    let rest =
      claim_each-HasTried n now_ms rows key (claim_row now_ms k t).1
        (claim_row-HasTried n now_ms k key t h) in
    elim (Bool-cases (claim_row now_ms k t).0) [
      | inl e ↦ rw (e, claim_each) rest
      | inr e ↦ rw (e, claim_each) rest
    ]

claim-HasTried :
    (n : ℕ) (now_ms : ℤ) (limit : ℕ) (key : Key) (t : Table)
    → HasTried n (get key t)
    → HasTried n (get key (claim_due_deletions now_ms limit t).1)
unfolding claim_due_deletions
claim-HasTried n now_ms limit key t h = elim (Bool-cases (leb limit i64_max)) [
  | inl small ↦
      rw (claim_due_deletions, small)
        (claim_each-HasTried n now_ms (due_rows now_ms limit t) key t h)
  | inr large ↦ rw (claim_due_deletions, large) h
]

complete-HasTried :
    (n : ℕ) (k key : Key) (t : Table)
    → HasTried n (get key t)
    → HasTried n (get key (complete_deletion k t).1)
unfolding complete_deletion
complete-HasTried n k key t h = elim (Bool-cases (k == key)) [
  | inl same ↦ rw (get-remove k key t, same) tt
  | inr differs ↦ rw (get-remove k key t, differs) h
]

-- A retry counts for its own row.
retry_own-HasTried :
    (n : ℕ) (k key : Key) (error_class : String) (now_ms : ℤ) (t : Table)
    → (k == key) ≡ true
    → HasTried n (get key t)
    → HasTried (suc n) (get key (retry_deletion k error_class now_ms t).1)
unfolding retry_deletion
retry_own-HasTried n k key error_class now_ms t same h = elim (Option-cases (get k t)) [
  | inl e ↦
      rw (e, retry_deletion)
        (subst (HasTried (suc n)) (sym e ∙ ap (λ x. get x t) ((eq_iff k key).0 same)) tt)
  | inr (row, e) ↦
      rw (e, retry_deletion)
        (insert-HasTried (suc n) k key (retried_row error_class now_ms row) t
          (λ _.
            retried_row-HasTried n error_class now_ms row (read-HasTried n k key row t e same h))
          (λ differs. absurd (ground (arith, sym same ∙ differs))))
]

retry_other-HasTried :
    (n : ℕ) (k key : Key) (error_class : String) (now_ms : ℤ) (t : Table)
    → (k == key) ≡ false
    → HasTried n (get key t)
    → HasTried n (get key (retry_deletion k error_class now_ms t).1)
unfolding retry_deletion
retry_other-HasTried n k key error_class now_ms t differs h = elim (Option-cases (get k t)) [
  | inl e ↦ rw (e, retry_deletion) h
  | inr (row, e) ↦
      rw (e, retry_deletion)
        (insert-HasTried n k key (retried_row error_class now_ms row) t
          (λ same. absurd (ground (arith, sym same ∙ differs))) (λ _. h))
]

retry-HasTried :
    (n : ℕ) (k key : Key) (error_class : String) (now_ms : ℤ) (t : Table)
    → HasTried n (get key t)
    → HasTried (if k == key then suc n else n) (get key (retry_deletion k error_class now_ms t).1)
retry-HasTried n k key error_class now_ms t h = elim (Bool-cases (k == key)) [
  | inl same ↦ rw same (retry_own-HasTried n k key error_class now_ms t same h)
  | inr differs ↦ rw differs (retry_other-HasTried n k key error_class now_ms t differs h)
]

-- All the retries are counted.
pub perform_all-HasTried :
    (ws : List Work) (n : ℕ) (key : Key) (t : Table)
    → HasTried n (get key t)
    → HasTried (retries_of key ws n) (get key (perform_all ws t))
unfolding perform_all perform
perform_all-HasTried [] n key t h = h
perform_all-HasTried (claim_work now_ms limit ∷ ws) n key t h =
    perform_all-HasTried ws n key _ (claim-HasTried n now_ms limit key t h)
perform_all-HasTried (complete_work k ∷ ws) n key t h =
    perform_all-HasTried ws n key _ (complete-HasTried n k key t h)
perform_all-HasTried (retry_work k error_class now_ms ∷ ws) n key t h =
    perform_all-HasTried ws _ key _ (retry-HasTried n k key error_class now_ms t h)
