-- ===== src/Deletions/Tests.antt =====
-- The theorems on deletions at a concrete table: one message that is due.
use codex_telegram_bridge.Prelude.Map.{get}
use codex_telegram_bridge.Prelude.Int.{pos, int_ord}
use codex_telegram_bridge.Prelude.{
  ◌≡◌, refl, false, none, List, [], ◌∷◌, arith, string_ord, nat_ord, pair_ord, option_ord, list_ord,
}
use codex_telegram_bridge.Deletions.Table.{Key, DeletionRow, Table, claim_due_deletions, backoff_ms}
use codex_telegram_bridge.Deletions.Retries.{perform_all, Work, claim_work, retry_work}
use codex_telegram_bridge.Deletions.Exclusive.{claim_all, claims_exclusive}
use codex_telegram_bridge.Deletions.Claims.{gives}
use codex_telegram_bridge.Deletions.Backoff.{backoff_ms_lem}
use codex_telegram_bridge.Deletions.Abandoned.{worn_out_unclaimed}

abbrev message : Key
message = ("bot", (pos 7, pos 9))

abbrev due_row : DeletionRow
due_row = record {
  group_key = "g";
  delete_at_ms = pos 100;
  attempts = pos 0;
  claimed_at_ms = none;
  last_error_class = none;
  next_attempt_at_ms = pos 0;
  abandoned_at_ms = none;
}

abbrev queue : Table
queue = record { entries = (message, due_row) ∷ [] }

claims_exclusive_example :
    gives
      (pos 30000)
      5
      message
      (claim_all ((20000, 3) ∷ []) (claim_due_deletions (pos 10000) 10 queue).1)
    ≡ false
unfolding gives claim_due_deletions get
claims_exclusive_example =
    claims_exclusive 10000 30000 10 5 ((20000, 3) ∷ []) message queue (refl, tt) refl
      (ground arith, tt) (ground arith)

abbrev eight : List Work
eight =
    retry_work message "timeout" (pos 1)
    ∷ retry_work message "timeout" (pos 2)
    ∷ retry_work message "timeout" (pos 3)
    ∷ claim_work (pos 70000) 1
    ∷ retry_work message "timeout" (pos 4)
    ∷ retry_work message "timeout" (pos 5)
    ∷ retry_work message "timeout" (pos 6)
    ∷ retry_work message "timeout" (pos 7)
    ∷ retry_work message "timeout" (pos 8)
    ∷ []

worn_out_unclaimed_example : gives (pos 900000) 10 message (perform_all eight queue) ≡ false
unfolding get
worn_out_unclaimed_example =
    worn_out_unclaimed eight message due_row (pos 900000) 10 queue (refl, tt) refl (ground arith)
      (ground arith)

backoff_ms_lem_example : backoff_ms (pos 3) ≡ pos 16000
backoff_ms_lem_example = backoff_ms_lem 3
