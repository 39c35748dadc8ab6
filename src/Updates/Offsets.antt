-- ===== src/Updates/Offsets.antt =====
-- rust/crates/storage-sqlite/src/lib.rs: the tables of processed updates and of poll offsets.
use codex_telegram_bridge.Prelude.{
  Bool, true, false, if◌then◌else◌, Option, none, some, String, string_ord, pair_ord, is_blank,
  Outcome, success, failure,
}
use codex_telegram_bridge.Prelude.Map.{Map, get, insert}
use codex_telegram_bridge.Prelude.Int.{ℤ, pos, int_ord, max_ℤ, saturating_add}
use codex_telegram_bridge.Ports.{PortError, adapter}

-- The next update to ask for, and when that was written.
pub record PollOffset : Type 0 where
  pub next_update_id : ℤ
  pub updated_at_ms : ℤ

pub record UpdateStore : Type 0 where
  pub processed_updates : Map (String × ℤ) ℤ
  pub poll_offsets : Map String PollOffset

unfoldable pub processed_update_exists : String → ℤ → UpdateStore → Bool
processed_update_exists bot_instance_id update_id s =
    elim (get (bot_instance_id, update_id) s.processed_updates) [ none ↦ false | some _ ↦ true ]

unfoldable pub next_update_offset : String → UpdateStore → Option ℤ
next_update_offset bot_instance_id s = elim (get bot_instance_id s.poll_offsets) [
  | none ↦ none
  | some offset ↦ some offset.next_update_id
]

-- The offset only grows.
unfoldable pub raised : ℤ → ℤ → Option PollOffset → PollOffset
raised next received_at_ms none = record { next_update_id = next; updated_at_ms = received_at_ms }
raised next received_at_ms (some offset) = record {
  next_update_id = max_ℤ offset.next_update_id next;
  updated_at_ms = received_at_ms;
}

unfoldable pub record_processed_update :
    String → ℤ → ℤ → UpdateStore → Outcome PortError Bool × UpdateStore
unfolding processed_update_exists raised
record_processed_update bot_instance_id update_id received_at_ms s =
    if is_blank bot_instance_id
    then (failure (adapter "bot instance id cannot be empty"), s)
    else if processed_update_exists bot_instance_id update_id s
    then (success false, s)
    else (
      success true,
      record {
        processed_updates = insert (bot_instance_id, update_id) received_at_ms s.processed_updates;
        poll_offsets =
            insert bot_instance_id
              (raised (saturating_add update_id (pos 1)) received_at_ms
                (get bot_instance_id s.poll_offsets))
              s.poll_offsets;
      },
    )
