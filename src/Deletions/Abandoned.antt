-- ===== src/Deletions/Abandoned.antt =====
-- rust/crates/storage-sqlite/src/lib.rs: a deletion that failed eight times is not claimed again.
use codex_telegram_bridge.Prelude.Removal.{Distinct-remove}
use codex_telegram_bridge.Prelude.Int.{ℤ, ◌≤ℤ◌, pos, int_ord}
use codex_telegram_bridge.Prelude.{
  ℕ, ◌≤◌, ◌≡◌, refl, subst, inl, inr, false, some, List, [], ◌∷◌, arith, Bool-cases, Option-cases,
  string_ord, nat_ord, pair_ord, option_ord, list_ord, String,
}
use codex_telegram_bridge.Deletions.Table.{
  Key, DeletionRow, Table, is_due, complete_deletion, retried_row, retry_deletion,
}
use codex_telegram_bridge.Deletions.Retries.{
  perform, perform_all, Work, retries_of, HasTried, perform_all-HasTried, claim_work, complete_work,
  retry_work,
}
use codex_telegram_bridge.Deletions.Exclusive.{Distinct-claim}
use codex_telegram_bridge.Deletions.Claims.{gives, gives-due}
use codex_telegram_bridge.Prelude.Map.{get, keys, Distinct, Distinct-insert}

Distinct-retry :
    (k : Key) (error_class : String) (now_ms : ℤ) (t : Table)
    → Distinct (keys t)
    → Distinct (keys (retry_deletion k error_class now_ms t).1)
unfolding retry_deletion
Distinct-retry k error_class now_ms t d = elim (Option-cases (get k t)) [
  | inl e ↦ rw (e, retry_deletion) d
  | inr (row, e) ↦
      rw (e, retry_deletion) (Distinct-insert k (retried_row error_class now_ms row) t d)
]

Distinct-perform : (w : Work) (t : Table) → Distinct (keys t) → Distinct (keys (perform w t))
unfolding perform complete_deletion
Distinct-perform (claim_work now_ms limit) t d = Distinct-claim now_ms limit t d
Distinct-perform (complete_work k) t d = Distinct-remove k t d
Distinct-perform (retry_work k error_class now_ms) t d = Distinct-retry k error_class now_ms t d

Distinct-perform_all :
    (ws : List Work) (t : Table) → Distinct (keys t) → Distinct (keys (perform_all ws t))
unfolding perform_all
Distinct-perform_all [] t d = d
Distinct-perform_all (w ∷ ws) t d = Distinct-perform_all ws (perform w t) (Distinct-perform w t d)

tried-not_due :
    (n : ℕ) (now_ms : ℤ) (limit : ℕ) (key : Key) (t : Table)
    → Distinct (keys t)
    → 8 ≤ n
    → HasTried n (get key t)
    → gives now_ms limit key t ≡ false
unfolding is_due
tried-not_due n now_ms limit key t d often h = elim (Bool-cases (gives now_ms limit key t)) [
  | inr refused ↦ refused
  | inl given ↦
      let (row, e, due) = gives-due now_ms limit key t d given in
      let (_, worn) = subst (HasTried n) e h in absurd (ground arith)
]

-- Once a deletion was retried eight times, whatever claims and completions came between, no claim
-- gives it, unless it was scheduled anew; it starts with no negative number of attempts, and the keys
-- are distinct.
pub worn_out_unclaimed :
    (ws : List Work) (key : Key) (row : DeletionRow) (now_ms : ℤ) (limit : ℕ) (t : Table)
    → Distinct (keys t)
    → get key t ≡ some row
    → pos 0 ≤ℤ row.attempts
    → 8 ≤ retries_of key ws 0
    → gives now_ms limit key (perform_all ws t) ≡ false
worn_out_unclaimed ws key row now_ms limit t d e fresh often =
    tried-not_due (retries_of key ws 0) now_ms limit key (perform_all ws t)
      (Distinct-perform_all ws t d) often (perform_all-HasTried ws 0 key t (rw e (fresh, refl)))
