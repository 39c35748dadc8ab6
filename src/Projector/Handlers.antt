-- ===== src/Projector/Handlers.antt =====
-- rust/crates/engine/src/projector.rs: the bound on items, and one handler per kind of event.
use codex_telegram_bridge.Projector.Types.{
  ThreadProjection, ProjectionEffect, add_member, refresh_status, failure_reported,
}
use codex_telegram_bridge.Projector.Subagents.{project_item_subagents}
use codex_telegram_bridge.Projector.Reading.{
  is_one_of, mode_from_fields, status_name, merge_thread, recoverable_error_text, status_is_healthy,
  clear_recoverable_error, clear_if, either_text, flags_after,
}
use codex_telegram_bridge.Prelude.Int.{ℤ, saturating_add, saturating_sub, max_ℤ, pos, int_ord}
use codex_telegram_bridge.Prelude.{
  ℕ, suc, String, Bool, false, not, Option, none, some, List, [], ◌∷◌, ◌++◌, ltb, if◌then◌else◌,
  ◌>>=◌, or_else, unwrap_or, length, string_ord, nat_ord, pair_ord, option_ord, list_ord,
}
use codex_telegram_bridge.Json.{JsonApi, text_of, get_either, first_text}
use codex_telegram_bridge.Prelude.Map.{Map, get as lookup, insert, remove, contains, retain_keys}

abbrev pub max_projection_items : ℕ
max_projection_items = 200

-- The readings of the clock in the order in which an event takes them.
pub record Clock : Type 0 where
  pub first : ℤ
  pub second : ℤ
  pub third : ℤ

abbrev elapsed : ℤ → Option ℤ → ℤ
elapsed now none = pos 0
elapsed now (some since) = saturating_sub now since

module _ {V : Type 0} where
  -- The loop: the oldest item goes while there are too many.
  unfoldable pub drop_front : List String → Map String V → List String × Map String V
  drop_front [] items = ([], items)
  drop_front (oldest ∷ rest) items =
      let dropped = drop_front rest (remove oldest items) in
      if ltb max_projection_items (suc (length rest)) then dropped else (oldest ∷ rest, items)

  unfoldable pub truncate_items : ThreadProjection V → ThreadProjection V
  unfolding drop_front
  truncate_items p =
      let (order, items) = drop_front p.item_order p.items in
      record p {
        item_order = order;
        items =
            if ltb max_projection_items (length items.entries)
            then retain_keys (λ id. contains id order) items
            else items;
      }

  abbrev pub push_new : String → Map String V → List String → List String
  push_new id items order = elim (lookup id items) [ none ↦ order ++ id ∷ [] | some _ ↦ order ]

  -- A turn is counted under its name, if it has one, and once.
  unfoldable pub count_turn : Option String → ℤ → ThreadProjection V → ThreadProjection V
  count_turn none duration p = record p {
    completed_turns_duration_ms =
        saturating_add p.completed_turns_duration_ms (max_ℤ duration (pos 0));
  }
  count_turn (some id) duration p = if contains id p.completed_turn_ids then p else record p {
    completed_turn_ids = add_member id p.completed_turn_ids;
    completed_turns_duration_ms =
        saturating_add p.completed_turns_duration_ms (max_ℤ duration (pos 0));
  }

module _ (api : JsonApi) where
  open api use {Value, get, pointer, as_str, as_bool, as_i64}

  unfoldable pub project_thread : Value → ThreadProjection Value → ThreadProjection Value
  unfolding merge_thread status_is_healthy clear_if
  project_thread params p =
      let merged = merge_thread api params p in clear_if (status_is_healthy merged.status) merged

  unfoldable pub project_status : Value → ThreadProjection Value → ThreadProjection Value
  unfolding status_is_healthy clear_if
  project_status params p =
      let status = or_else (get "status" params) (pointer "/thread/status" params) in
      let name = status >>= status_name api in
      clear_if (status_is_healthy name)
        (record p { status = name; active_flags = flags_after api status [] })

  abbrev modes_in : List String → Value → Value → Option String
  modes_in fields settings params =
      or_else (mode_from_fields api settings fields) (mode_from_fields api params fields)

  unfoldable pub project_settings : Value → ThreadProjection Value → ThreadProjection Value
  unfolding mode_from_fields
  project_settings params p =
      let settings = unwrap_or params (get_either api "threadSettings" "settings" params) in
      let confirmed = modes_in ("collaborationMode" ∷ "collaboration_mode" ∷ []) settings params in
      let observed = modes_in ("observedMode" ∷ "observed_mode" ∷ []) settings params in
      record p {
        desired_mode = or_else confirmed p.desired_mode;
        observed_mode = or_else observed (or_else confirmed p.observed_mode);
        model = or_else (text_of api "model" settings) p.model;
        effort = or_else (either_text api "effort" "reasoning_effort" settings) p.effort;
      }

  unfoldable pub project_turn_started :
      Clock → Value → ThreadProjection Value → ThreadProjection Value
  unfolding clear_recoverable_error
  project_turn_started clock params p = record (clear_recoverable_error p) {
    turn_id = first_text api ("turnId" ∷ "turn" ∷ "id" ∷ []) params;
    turn_status = some "inProgress";
    started_at_ms = some clock.second;
    finished_at_ms = none;
  }

  abbrev turn_from : Option Value → ThreadProjection Value → ThreadProjection Value
  turn_from none p = p
  turn_from (some turn) p = record p {
    turn_id = text_of api "id" turn;
    turn_status = text_of api "status" turn;
  }

  unfoldable pub project_turn_updated : Value → ThreadProjection Value → ThreadProjection Value
  unfolding clear_if
  project_turn_updated params p =
      let updated = turn_from (get "turn" params) p in
      clear_if (not (is_one_of ("failed" ∷ []) updated.turn_status)) updated

  -- How long the turn took by the event, or since its start.
  unfoldable pub turn_duration : Clock → Value → Option ℤ → ℤ
  turn_duration clock params started_at =
      unwrap_or (elapsed clock.third started_at)
        (get "turn" params >>= λ turn. get_either api "durationMs" "duration_ms" turn >>= as_i64)

  -- `ended` is the method without `turn/`.
  unfoldable pub project_turn_ended :
      Clock → String → Value → ThreadProjection Value → ThreadProjection Value
  unfolding count_turn turn_duration
  project_turn_ended clock ended params p =
      count_turn (or_else (get "turn" params >>= text_of api "id") p.turn_id)
        (turn_duration clock params p.started_at_ms)
        (record p {
          turn_status = or_else (get "turn" params >>= text_of api "status") (some ended);
          finished_at_ms = some clock.second;
        })

  -- The item under its name, if it has one.
  unfoldable pub put_item : Value → ThreadProjection Value → ThreadProjection Value
  put_item item p = elim (text_of api "id" item) [
    | none ↦ p
    | some id ↦ record p {
      item_order = push_new id p.items p.item_order;
      items = insert id item p.items;
    }
  ]

  unfoldable pub project_item : Clock → Value → ThreadProjection Value → ThreadProjection Value
  unfolding put_item truncate_items project_item_subagents
  project_item clock params p = elim (get "item" params) [
    | none ↦ p
    | some item ↦
        truncate_items (project_item_subagents api clock.second false item (put_item item p))
  ]

  unfoldable pub project_subagent : Value → ThreadProjection Value → ThreadProjection Value
  project_subagent params p = elim (get_either api "task" "subagent" params) [
    | none ↦ p
    | some task ↦ elim (text_of api "id" task) [
      | none ↦ p
      | some id ↦ record p { subagents = insert id task p.subagents }
    ]
  ]

  unfoldable pub error_message : Value → String
  error_message params =
      unwrap_or "Codex error"
        (get "error" params >>= λ error. or_else (get "message" error) (some error) >>= as_str)

  unfoldable pub error_recoverable : Value → Bool
  unfolding recoverable_error_text error_message
  error_recoverable params =
      unwrap_or (recoverable_error_text (error_message params))
        (get_either api "willRetry" "will_retry" params >>= as_bool)

  unfoldable pub project_error :
      Clock → Value → ThreadProjection Value → ProjectionEffect × ThreadProjection Value
  unfolding error_message error_recoverable
  project_error clock params p =
      let recoverable = error_recoverable params in
      let noted = record p {
        last_error = some (error_message params);
        last_error_recoverable = recoverable;
      } in
      if recoverable then (refresh_status, noted) else (
        failure_reported,
        record noted { turn_status = some "failed"; finished_at_ms = some clock.second },
      )
