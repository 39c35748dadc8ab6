-- ===== src/Updates/Tests.antt =====
-- The theorems on updates at a concrete store: one bot that has seen update 4.
use codex_telegram_bridge.Updates.Polling.{Poller, complete, confirm}
use codex_telegram_bridge.Updates.Confirming.{confirm_blocks}
use codex_telegram_bridge.Updates.Passing.{IsPast, unhandled_is_passed}
use codex_telegram_bridge.Prelude.{
  ◌≡◌, refl, arith, true, false, String, List, [], ◌∷◌, string_ord, pair_ord, success, is_blank,
  is_whitespace, some, nat_ord, option_ord, list_ord,
}
use codex_telegram_bridge.Prelude.Map.{get}
use codex_telegram_bridge.Prelude.Int.{ℤ, pos, int_ord}
use codex_telegram_bridge.Updates.Offsets.{
  UpdateStore, processed_update_exists, record_processed_update,
}
use codex_telegram_bridge.Updates.Replays.{record_all, record_once, IsRaised, record_all-IsRaised}

abbrev seen : UpdateStore
seen = record {
  processed_updates = record { entries = (("bot", pos 4), pos 100) ∷ [] };
  poll_offsets = record {
    entries = ("bot", record { next_update_id = pos 5; updated_at_ms = pos 100 }) ∷ [];
  };
}

abbrev arrivals : List (String × ℤ × ℤ)
arrivals = ("bot", pos 5, pos 110) ∷ ("other", pos 1, pos 111) ∷ ("bot", pos 3, pos 112) ∷ []

is_new : (record_processed_update "bot" (pos 7) (pos 105) seen).0 ≡ success true
unfolding record_processed_update processed_update_exists get is_blank is_whitespace
is_new = refl

record_once_example :
    let s' = record_all arrivals (record_processed_update "bot" (pos 7) (pos 105) seen).1 in
    record_processed_update "bot" (pos 7) (pos 120) s' ≡ (success false, s')
record_once_example = record_once "bot" (pos 7) (pos 105) (pos 120) arrivals seen is_new

record_all-IsRaised_example : IsRaised (pos 5) (get "bot" (record_all arrivals seen).poll_offsets)
unfolding get
record_all-IsRaised_example = record_all-IsRaised arrivals "bot" (pos 5) seen (ground arith)

abbrev waiting : Poller
waiting = record {
  pending = record { entries = (pos 5, true) ∷ (pos 6, false) ∷ (pos 7, true) ∷ [] };
  offset = some (pos 5);
}

confirm_blocks_example :
    processed_update_exists "bot" (pos 7) (confirm "bot" (λ id. pos 200) seen waiting).0
    ≡ processed_update_exists "bot" (pos 7) seen
unfolding get
confirm_blocks_example =
    confirm_blocks "bot" (λ id. pos 200) (pos 6) (pos 7) seen waiting (refl, (refl, (refl, tt)))
      refl refl

abbrev unhandled : Poller
unhandled = record {
  pending = record { entries = (pos 5, false) ∷ (pos 6, true) ∷ (pos 8, false) ∷ [] };
  offset = some (pos 5);
}

unhandled_is_passed_example :
    let (s', p') = confirm "bot" (λ id. pos 200) seen (complete (pos 5) false unhandled) in
    IsPast (pos 6) p'.offset
    × (processed_update_exists "bot" (pos 6) s' ≡ true)
    × (processed_update_exists "bot" (pos 5) s' ≡ processed_update_exists "bot" (pos 5) seen)
unfolding is_blank get
unhandled_is_passed_example =
    unhandled_is_passed "bot" (λ id. pos 200) (pos 5) (pos 6) seen unhandled refl
      (refl, (refl, (refl, tt))) refl refl refl
