-- ===== src/Projector/Tests.antt =====
-- Runs of the projector on JSON values of a plain kind, and the witnesses of its theorems.
use codex_telegram_bridge.Plain.{
  Json, from_members, plain, text, dict, flag, number, no_fields, field_and,
}
use codex_telegram_bridge.Prelude.Distinct.{is_distinct-Distinct}
use codex_telegram_bridge.Projector.Trimming.{length-trim_subagent_tasks, trim_keeps_newest}
use codex_telegram_bridge.Projector.Terminal.{historical_stays_terminal}
use codex_telegram_bridge.Projector.Tasks.{
  is_terminal_status, trim_subagent_tasks, max_subagent_tasks, trim_rounds, older_of,
}
use codex_telegram_bridge.Projector.Subagents.{collab_call, collab_task, activity_task}
use codex_telegram_bridge.Projector.Eviction.{evict_lem, IsSwept}
use codex_telegram_bridge.Projector.Errors.{HasFailed, apply_kind-HasFailed}
use codex_telegram_bridge.Projector.Types.{AgentEvent, new_thread, ThreadProjection, EventProjector}
use codex_telegram_bridge.Projector.Turns.{apply_all, total, EndsTurn, counted_once}
use codex_telegram_bridge.Projector.Reading.{thread_id_from_params}
use codex_telegram_bridge.Projector.Histories.{
  run, Everywhere, event_came, row_restored, cutoff_passed, time_stamped,
}
use codex_telegram_bridge.Projector.Handlers.{Clock}
use codex_telegram_bridge.Projector.Bounds.{IsBounded, run-IsBounded}
use codex_telegram_bridge.Projector.Apply.{
  apply, kind_of, projection, evict_finished_before, apply_kind, turn_started_event,
}
use codex_telegram_bridge.Prelude.Int.{pos, int_ord, ◌+ℤ◌, saturate, saturating_add, ◌≤ℤ◌}
use codex_telegram_bridge.Prelude.{
  ℕ, String, ◌≡◌, refl, Bool, none, some, List, [], ◌∷◌, if◌then◌else◌, ◌>>=◌, string_ord, nat_ord,
  pair_ord, option_ord, list_ord, true, arith, length, is_blank, zero, suc, ltb,
}
use codex_telegram_bridge.Prelude.Map.{get as lookup, empty, insert, Map, keys, Distinct, remove}

abbrev at : ℕ → Clock
at n = record { first = pos n; second = pos n; third = pos n }

abbrev of_thread : String → List (String × Json) → Json
of_thread id fs = dict (field_and "threadId" (text id) (from_members fs))

abbrev happening : String → Json → AgentEvent Json
happening method params = record { method = method; params = params; generation = 1 }

abbrev turn : List (String × Json) → String × Json
turn fs = ("turn", dict (from_members fs))

abbrev begun : AgentEvent Json
begun = happening "turn/started" (of_thread "a" (turn (("id", text "t1") ∷ []) ∷ []))

abbrev finished : AgentEvent Json
finished =
    happening "turn/completed"
      (of_thread "a" (turn (("id", text "t1") ∷ ("durationMs", number (pos 40)) ∷ []) ∷ []))

abbrev one_item : AgentEvent Json
one_item =
    happening "item/started"
      (of_thread "a" (("item", dict (field_and "id" (text "i1") no_fields)) ∷ []))

abbrev an_error : Bool → AgentEvent Json
an_error retried =
    happening "error" (of_thread "a" (("error", text "broken") ∷ ("willRetry", flag retried) ∷ []))

-- A turn that starts with its object in place of its name is without a name.
unnamed_turn : (projection "a" (apply plain (at 1) begun empty).1 >>= λ p. p.turn_id) ≡ none
unfolding projection apply lookup is_blank insert
unnamed_turn = refl

completed_total : total plain "a" (apply plain (at 1) finished empty).1 ≡ some (pos 40)
unfolding total apply projection lookup is_blank insert saturating_add saturate ◌+ℤ◌
completed_total = refl

finished-EndsTurn : EndsTurn plain "a" "t1" finished
unfolding kind_of thread_id_from_params lookup is_blank
finished-EndsTurn = record {
  ended = "completed";
  is_end = refl;
  is_of_thread = refl;
  is_of_turn = refl;
}

counted_once_example :
    let since =
      apply_all plain
        ((at 7, one_item) ∷ (at 8, begun) ∷ [])
        (apply plain (at 6) finished empty).1 in
    total plain "a" (apply plain (at 9) finished since).1 ≡ total plain "a" since
counted_once_example =
    counted_once plain ((at 7, one_item) ∷ (at 8, begun) ∷ []) "a" "t1" (at 6) (at 9) finished
      finished empty finished-EndsTurn finished-EndsTurn

run-IsBounded_example : Everywhere plain IsBounded (
    run plain
      (event_came (at 1) one_item
        ∷ row_restored (new_thread "b" 2)
        ∷ cutoff_passed (pos 5)
        ∷ time_stamped "b" (pos 7)
        ∷ [])
      empty)
unfolding new_thread empty
run-IsBounded_example =
    run-IsBounded plain
      (event_came (at 1) one_item
        ∷ row_restored (new_thread "b" 2)
        ∷ cutoff_passed (pos 5)
        ∷ time_stamped "b" (pos 7)
        ∷ [])
      (tt, (tt, (tt, (tt, tt))))

-- A thread that failed, and one that is stale.
abbrev broken : ThreadProjection Json
broken = record (new_thread "a" 1) {
  last_error = some "broken";
  turn_status = some "failed";
  finished_at_ms = some (pos 3);
}

broken-HasFailed : HasFailed "broken" broken
unfolding new_thread
broken-HasFailed = record { is_shown = refl; is_final = refl }

apply_kind-HasFailed_example :
    HasFailed "broken" (apply_kind plain turn_started_event (at 9) begun.params broken).1
apply_kind-HasFailed_example =
    apply_kind-HasFailed plain turn_started_event (at 9) begun.params "broken" broken
      (λ e. absurd (ground arith)) broken-HasFailed

abbrev running_thread : ThreadProjection Json
running_thread = record broken { turn_status = some "inProgress"; updated_at_ms = pos 2 }

abbrev memory : EventProjector Json
memory = record { entries = ("a", running_thread) ∷ ("b", new_thread "b" 1) ∷ [] }

evict_lem_example :
    IsSwept
      (pos 5)
      (projection "a" memory)
      (projection "a" (evict_finished_before (pos 5) memory).1)
evict_lem_example = evict_lem (pos 5) "a" memory (refl, (refl, tt))

-- As many tasks, of which the first is the one that was updated last.
abbrev name_of : ℕ → String
name_of zero = "k"
name_of (suc n) = String.◌∷◌ "a" (name_of n)

abbrev tasks_to : ℕ → List (String × Json)
tasks_to zero = []
tasks_to (suc n) =
    (name_of n, dict (field_and "updated_at" (number (pos n)) no_fields)) ∷ tasks_to n

abbrev crowd : Map String Json
crowd = record { entries = tasks_to 51 }

Distinct-crowd : Distinct (keys crowd)
Distinct-crowd = is_distinct-Distinct (keys crowd) refl

length-trim_subagent_tasks_example : length (trim_subagent_tasks plain crowd).entries ≡ (
    if ltb max_subagent_tasks (length crowd.entries)
    then max_subagent_tasks
    else length crowd.entries)
length-trim_subagent_tasks_example = length-trim_subagent_tasks plain crowd Distinct-crowd

trim_keeps_newest_example : pos 0 ≤ℤ pos 50
unfolding trim_subagent_tasks trim_rounds lookup remove older_of
trim_keeps_newest_example =
    trim_keeps_newest plain "k" (name_of 50)
      (dict (field_and "updated_at" (number (pos 0)) no_fields))
      (dict (field_and "updated_at" (number (pos 50)) no_fields)) crowd Distinct-crowd refl refl
      refl

historical_stays_terminal_example :
    (is_terminal_status
        (collab_task plain
          (pos 5)
          true
          (collab_call plain (dict no_fields))
          "x"
          (dict no_fields)
          (some (dict (field_and "status" (text "failed") no_fields)))).status
      ≡ true)
    × (is_terminal_status
          (activity_task plain
            (pos 5)
            true
            "x"
            ""
            "started"
            (some (dict (field_and "status" (text "failed") no_fields)))).status
        ≡ true)
unfolding lookup
historical_stays_terminal_example =
    historical_stays_terminal plain (pos 5) (collab_call plain (dict no_fields)) "x" "" "started"
      "failed" (dict no_fields) (some (dict (field_and "status" (text "failed") no_fields))) refl
      refl
