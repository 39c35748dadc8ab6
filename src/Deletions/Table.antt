-- ===== src/Deletions/Table.antt =====
-- rust/crates/storage-sqlite/src/lib.rs: the table rust_scheduled_deletions and its operations.
use codex_telegram_bridge.Prelude.Map.{get, Map, insert, remove}
use codex_telegram_bridge.Prelude.Int.{
  ℤ, ◌+ℤ◌, leb_ℤ, i64_max, saturating_sub, pos, negsuc, int_ord,
}
use codex_telegram_bridge.Prelude.{
  ℕ, zero, suc, ◌*◌, ◌^◌, Ordering, String, Bool, true, false, not, ◌&&◌, Option, none, some, List,
  [], ◌∷◌, leb, if◌then◌else◌, has_some, retain, Outcome, success, failure, is_blank, pair_cmp,
  string_ord, nat_ord, pair_ord, option_ord, list_ord, ◌||◌,
}
use codex_telegram_bridge.Ports.{PortError, adapter}

abbrev pub deletion_claim_lease_ms : ℤ
deletion_claim_lease_ms = pos 60000

abbrev pub deletion_max_attempts : ℤ
deletion_max_attempts = pos 8

abbrev pub deletion_backoff_cap_ms : ℤ
deletion_backoff_cap_ms = pos 300000

pub record ScheduledDeletion : Type 0 where
  pub bot_instance_id : String
  pub chat_id : ℤ
  pub message_id : ℤ
  pub group_key : String
  pub delete_at_ms : ℤ
  pub attempts : ℤ
  pub claimed_at_ms : Option ℤ
  pub last_error_class : Option String

-- The primary key: bot, chat and message.
abbrev pub Key : Type 0
Key = String × (ℤ × ℤ)

-- The other columns.
pub record DeletionRow : Type 0 where
  pub group_key : String
  pub delete_at_ms : ℤ
  pub attempts : ℤ
  pub claimed_at_ms : Option ℤ
  pub last_error_class : Option String
  pub next_attempt_at_ms : ℤ
  pub abandoned_at_ms : Option ℤ

abbrev pub Table : Type 0
Table = Map Key DeletionRow

abbrev pub key_of : ScheduledDeletion → Key
key_of d = (d.bot_instance_id, (d.chat_id, d.message_id))

unfoldable pub scheduled_deletion_from_row : Key → DeletionRow → ScheduledDeletion
scheduled_deletion_from_row key row = record {
  bot_instance_id = key.0;
  chat_id = key.1.0;
  message_id = key.1.1;
  group_key = row.group_key;
  delete_at_ms = row.delete_at_ms;
  attempts = row.attempts;
  claimed_at_ms = row.claimed_at_ms;
  last_error_class = row.last_error_class;
}

unfoldable pub schedule_deletion : ScheduledDeletion → Table → Outcome PortError (Unit {0}) × Table
schedule_deletion d t =
    if is_blank d.bot_instance_id || is_blank d.group_key || leb_ℤ d.message_id (pos 0)
    then (failure (adapter "scheduled deletion fields are invalid"), t)
    else (
      success tt,
      insert (key_of d)
          (record {
            group_key = d.group_key;
            delete_at_ms = d.delete_at_ms;
            attempts = d.attempts;
            claimed_at_ms = d.claimed_at_ms;
            last_error_class = d.last_error_class;
            next_attempt_at_ms = pos 0;
            abandoned_at_ms = none;
          })
          t,
    )

-- `claimed_at_ms IS NULL OR claimed_at_ms<=stale_before`.
abbrev pub is_unclaimed : ℤ → Option ℤ → Bool
is_unclaimed stale_before_ms none = true
is_unclaimed stale_before_ms (some at_ms) = leb_ℤ at_ms stale_before_ms

-- The condition of the query.
unfoldable pub is_due : ℤ → DeletionRow → Bool
is_due now_ms row =
    leb_ℤ row.delete_at_ms now_ms
    && not (has_some row.abandoned_at_ms)
    && leb_ℤ row.next_attempt_at_ms now_ms
    && is_unclaimed (saturating_sub now_ms deletion_claim_lease_ms) row.claimed_at_ms

-- The order of the query.
abbrev is_before : Key × DeletionRow → Key × DeletionRow → Bool
is_before (k, a) (j, b) = elim (pair_cmp (a.delete_at_ms, k) (b.delete_at_ms, j)) [
  | Ordering.gt ↦ false
  | _ ↦ true
]

abbrev pub place_row : Key × DeletionRow → List (Key × DeletionRow) → List (Key × DeletionRow)
place_row r [] = r ∷ []
place_row r (q ∷ qs) = let rest = place_row r qs in if is_before r q then r ∷ q ∷ qs else q ∷ rest

-- `ORDER BY`.
abbrev pub in_order : List (Key × DeletionRow) → List (Key × DeletionRow)
in_order [] = []
in_order (r ∷ rs) = place_row r (in_order rs)

-- `LIMIT`.
abbrev pub take : ℕ → List (Key × DeletionRow) → List (Key × DeletionRow)
take zero rs = []
take (suc n) [] = []
take (suc n) (r ∷ rs) = r ∷ take n rs

unfoldable pub due_rows : ℤ → ℕ → Table → List (Key × DeletionRow)
unfolding is_due
due_rows now_ms limit t = take limit (in_order (retain (λ r. is_due now_ms r.1) t.entries))

abbrev pub claimed_row : ℤ → DeletionRow → DeletionRow
claimed_row now_ms row = record row { claimed_at_ms = some now_ms }

-- The conditional update of one row: whether it changed, and the table.
unfoldable pub claim_row : ℤ → Key → Table → Bool × Table
claim_row now_ms key t = elim (get key t) [
  | none ↦ (false, t)
  | some row ↦
      if is_unclaimed (saturating_sub now_ms deletion_claim_lease_ms) row.claimed_at_ms
      then (true, insert key (claimed_row now_ms row) t)
      else (false, t)
]

-- The loop over the rows that are due.
unfoldable pub claim_each : ℤ → List (Key × DeletionRow) → Table → List ScheduledDeletion × Table
unfolding claim_row scheduled_deletion_from_row
claim_each now_ms [] t = ([], t)
claim_each now_ms ((key, row) ∷ rest) t =
    let (changed, after) = claim_row now_ms key t in
    let (claimed, last) = claim_each now_ms rest after in
    if changed
    then (scheduled_deletion_from_row key (claimed_row now_ms row) ∷ claimed, last)
    else (claimed, last)

unfoldable pub claim_due_deletions :
    ℤ → ℕ → Table → Outcome PortError (List ScheduledDeletion) × Table
unfolding due_rows claim_each
claim_due_deletions now_ms limit t =
    if leb limit i64_max
    then (let (claimed, after) = claim_each now_ms (due_rows now_ms limit t) t in
        (success claimed, after))
    else (failure (adapter "deletion limit exceeds SQLite range"), t)

unfoldable pub complete_deletion : Key → Table → Bool × Table
complete_deletion key t = (has_some (get key t), remove key t)

-- `1 << n` of SQLite, where a shift by a negative number goes to the right.
abbrev shift_one : ℤ → ℕ
shift_one (pos n) = 2 ^ n
shift_one (negsuc n) = 0

abbrev min_ℤ : ℤ → ℤ → ℤ
min_ℤ a b = if leb_ℤ a b then a else b

unfoldable pub backoff_ms : ℤ → ℤ
backoff_ms attempts =
    min_ℤ deletion_backoff_cap_ms (pos (shift_one (min_ℤ (attempts +ℤ pos 1) (pos 20)) * 1000))

unfoldable pub retried_row : String → ℤ → DeletionRow → DeletionRow
unfolding backoff_ms
retried_row error_class now_ms row = record row {
  attempts = row.attempts +ℤ pos 1;
  claimed_at_ms = none;
  last_error_class = some error_class;
  next_attempt_at_ms = now_ms +ℤ backoff_ms row.attempts;
  abandoned_at_ms =
      if leb_ℤ deletion_max_attempts (row.attempts +ℤ pos 1)
      then some now_ms
      else row.abandoned_at_ms;
}

unfoldable pub retry_deletion : Key → String → ℤ → Table → Bool × Table
unfolding retried_row
retry_deletion key error_class now_ms t = elim (get key t) [
  | none ↦ (false, t)
  | some row ↦ (true, insert key (retried_row error_class now_ms row) t)
]
