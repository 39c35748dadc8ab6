-- ===== src/Deletions/Claims.antt =====
-- rust/crates/storage-sqlite/src/lib.rs: what a claim of deletions gives, and to whom.
use codex_telegram_bridge.Prelude.Removal.{contains-there}
use codex_telegram_bridge.Prelude.Map.{firsts, Distinct, get_entry, contains, get, keys}
use codex_telegram_bridge.Prelude.Int.{ℤ, int_ord}
use codex_telegram_bridge.Prelude.{
  ℕ, zero, suc, ◌≡◌, refl, ap, ◌∙◌, Bool, true, false, some, List, [], ◌∷◌, arith, retain, success,
  failure, ◌==◌, string_ord, nat_ord, pair_ord, option_ord, list_ord, ◌||◌, inl, inr, Bool-cases,
  sym, ◌&&◌, eq_iff,
}
use codex_telegram_bridge.Deletions.Table.{
  claim_row, ScheduledDeletion, Key, DeletionRow, Table, key_of, scheduled_deletion_from_row,
  place_row, in_order, take, claim_each, claim_due_deletions, is_due, due_rows,
}

-- One of the rows has this key.
abbrev rows_have : Key → List (Key × DeletionRow) → Bool
rows_have key [] = false
rows_have key ((k, row) ∷ rs) = k == key || rows_have key rs

-- One of the deletions has this key.
abbrev pub has_key : Key → List ScheduledDeletion → Bool
has_key key [] = false
has_key key (d ∷ ds) = key_of d == key || has_key key ds

-- The claim gives this deletion.
unfoldable pub gives : ℤ → ℕ → Key → Table → Bool
gives now_ms limit key t = elim (claim_due_deletions now_ms limit t).0 [
  | success ds ↦ has_key key ds
  | failure e ↦ false
]

rows_have-take :
    (key : Key) (n : ℕ) (rs : List (Key × DeletionRow))
    → rows_have key (take n rs) ≡ true
    → rows_have key rs ≡ true
rows_have-take key zero rs h = absurd (ground arith)
rows_have-take key (suc n) [] h = h
rows_have-take key (suc n) ((k, row) ∷ rs) h = ground (arith, rows_have-take key n rs)

rows_have-place_row :
    (key k : Key) (row : DeletionRow) (rs : List (Key × DeletionRow))
    → rows_have key (place_row (k, row) rs) ≡ (k == key || rows_have key rs)
rows_have-place_row key k row [] = refl
rows_have-place_row key k row ((j, q) ∷ rs) = ground (arith, rows_have-place_row key k row rs)

rows_have-in_order :
    (key : Key) (rs : List (Key × DeletionRow)) → rows_have key (in_order rs) ≡ rows_have key rs
rows_have-in_order key [] = refl
rows_have-in_order key ((k, row) ∷ rs) =
    rows_have-place_row key k row (in_order rs)
    ∙ ap (λ b. k == key || b) (rows_have-in_order key rs)

-- The first row does not count, by its key or by the query.
later_has :
    (keep : DeletionRow → Bool) (key k : Key) (row : DeletionRow) (es : List (Key × DeletionRow))
    → ((k == key) && keep row) ≡ false
    → rows_have key (retain (λ r. keep r.1) ((k, row) ∷ es)) ≡ true
    → rows_have key (retain (λ r. keep r.1) es) ≡ true
later_has keep key k row es n h = elim (Bool-cases (keep row)) [
  | inl kept ↦ ground arith
  | inr left ↦ ground arith
]

-- A row that the query keeps stands in the table.
found_due :
    (keep : DeletionRow → Bool) (key : Key) (es : List (Key × DeletionRow))
    → Distinct (firsts es)
    → rows_have key (retain (λ r. keep r.1) es) ≡ true
    → (row : DeletionRow) × (get_entry key es ≡ some row) × (keep row ≡ true)
found_due keep key [] d h = absurd (ground arith)
found_due keep key ((k, row) ∷ es) d h = elim (Bool-cases (k == key)) [
  | inl same ↦ elim (Bool-cases (keep row)) [
    | inl kept ↦ (row, rw same refl, kept)
    | inr left ↦
        let (r, e, _) =
          found_due keep key es d.1 (later_has keep key k row es (rw (same, left) refl) h) in
        let twice =
          sym (contains-there key r es e)
          ∙ ap (λ x. contains x (firsts es)) (sym ((eq_iff k key).0 same))
          ∙ d.0 in
        absurd (ground (arith, twice))
  ]
  | inr differs ↦
      let (r, e, due) =
        found_due keep key es d.1 (later_has keep key k row es (rw differs refl) h) in
      (r, rw differs e, due)
]

-- What a loop gives was among its rows.
claim_each-rows_have :
    (now_ms : ℤ) (key : Key) (rows : List (Key × DeletionRow)) (t : Table)
    → has_key key (claim_each now_ms rows t).0 ≡ true
    → rows_have key rows ≡ true
unfolding claim_each scheduled_deletion_from_row
claim_each-rows_have now_ms key [] t h = h
claim_each-rows_have now_ms key ((k, row) ∷ rows) t h =
    ground (arith, claim_each-rows_have now_ms key rows (claim_row now_ms k t).1)

-- A claim gives only what is due: past its moment, not abandoned, past its backoff, and not claimed
-- in the last 60 seconds; keys are distinct.
pub gives-due :
    (now_ms : ℤ) (limit : ℕ) (key : Key) (t : Table)
    → Distinct (keys t)
    → gives now_ms limit key t ≡ true
    → (row : DeletionRow) × (get key t ≡ some row) × (is_due now_ms row ≡ true)
unfolding gives claim_due_deletions due_rows get
gives-due now_ms limit key t d h =
    let due = retain (λ r. is_due now_ms r.1) t.entries in
    let among = claim_each-rows_have now_ms key (take limit (in_order due)) t (ground arith) in
    found_due (is_due now_ms) key t.entries d
      (sym (rows_have-in_order key due) ∙ rows_have-take key limit (in_order due) among)
