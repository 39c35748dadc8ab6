-- ===== src/Projector/Apply.antt =====
-- rust/crates/engine/src/projector.rs: `EventProjector`.
use codex_telegram_bridge.Service.Engine.{event}
use codex_telegram_bridge.Projector.Types.{
  ThreadProjection, ProjectionEffect, AgentEvent, EventProjector, new_thread, no_effect,
  refresh_status, turn_ended,
}
use codex_telegram_bridge.Projector.Reading.{is_one_of, thread_id_from_params}
use codex_telegram_bridge.Projector.Handlers.{
  Clock, truncate_items, project_thread, project_status, project_settings, project_turn_started,
  project_turn_updated, project_turn_ended, project_item, project_subagent, project_error,
}
use codex_telegram_bridge.Prelude.Map.{get, contains, insert, remove}
use codex_telegram_bridge.Prelude.Int.{ℤ, ltb_ℤ, max_ℤ, pos, int_ord}
use codex_telegram_bridge.Prelude.{
  ℕ, String, Bool, false, not, ◌&&◌, Option, none, some, List, [], ◌∷◌, if◌then◌else◌, or_else,
  unwrap_or, length, is_blank, ◌==◌, string_ord, nat_ord, pair_ord, option_ord, list_ord, ◌||◌,
  has_some,
}
use codex_telegram_bridge.Json.{JsonApi, text_of}

-- The arms of the match on the method. Two of them read the rest of its name.
pub data EventKind : Type 0 where
  thread_event status_event settings_event turn_started_event turn_updated_event : EventKind
  turn_ended_event : String → EventKind
  item_event delta_event plan_event goal_event subagent_event : EventKind
  review_event : String → EventKind
  error_event other_event : EventKind

-- The name after the prefix, for the names that the match knows.
abbrev ending : String → List (String × String) → Option String
ending method [] = none
ending method ((name, rest) ∷ names) = if name == method then some rest else ending method names

abbrev turn_endings : List (String × String)
turn_endings =
    ("turn/completed", "completed")
    ∷ ("turn/failed", "failed")
    ∷ ("turn/interrupted", "interrupted")
    ∷ []

abbrev review_endings : List (String × String)
review_endings =
    ("review/started", "started")
    ∷ ("review/updated", "updated")
    ∷ ("review/completed", "completed")
    ∷ []

abbrev plain_kinds : List (EventKind × List String)
plain_kinds =
    (thread_event, "thread/started" ∷ "thread/created" ∷ "thread/updated" ∷ [])
    ∷ (status_event, "thread/status/updated" ∷ "thread/status/changed" ∷ [])
    ∷ (settings_event, "thread/settings/updated" ∷ "thread/settings/update" ∷ [])
    ∷ (turn_started_event, "turn/started" ∷ "turn/created" ∷ [])
    ∷ (turn_updated_event, "turn/updated" ∷ [])
    ∷ (item_event, "item/started" ∷ "item/updated" ∷ "item/completed" ∷ "item/failed" ∷ [])
    ∷ (delta_event, "item/agentMessage/delta" ∷ "item/plan/delta" ∷ "item/reasoning/delta" ∷ [])
    ∷ (
      plan_event,
      "turn/plan/updated" ∷ "thread/plan/updated" ∷ "plan/updated" ∷ "plan/published" ∷ [],
    )
    ∷ (goal_event, "goal/updated" ∷ "thread/goal/updated" ∷ [])
    ∷ (subagent_event, "subagent/started" ∷ "subagent/updated" ∷ "subagent/completed" ∷ [])
    ∷ (error_event, "error" ∷ "turn/error" ∷ [])
    ∷ []

abbrev kind_among : String → List (EventKind × List String) → EventKind
kind_among method [] = other_event
kind_among method ((kind, names) ∷ kinds) =
    if contains method names then kind else kind_among method kinds

unfoldable pub kind_of : String → EventKind
kind_of method = elim (ending method turn_endings) [
  | some rest ↦ turn_ended_event rest
  | none ↦ elim (ending method review_endings) [
    | some rest ↦ review_event rest
    | none ↦ kind_among method plain_kinds
  ]
]

abbrev pub before : ℤ → Option ℤ → Bool
before cutoff none = false
before cutoff (some at) = ltb_ℤ at cutoff

module _ {V : Type 0} where
  unfoldable pub restore : ThreadProjection V → EventProjector V → EventProjector V
  unfolding truncate_items
  restore p projector =
      if is_blank p.thread_id then projector else insert p.thread_id (truncate_items p) projector

  unfoldable pub projection : String → EventProjector V → Option (ThreadProjection V)
  projection thread_id projector = get thread_id projector

  -- What the event loop writes through `projection_mut`: a running turn without a start begins now.
  unfoldable pub stamped : ℤ → ThreadProjection V → ThreadProjection V
  stamped now_ms p = record p {
    updated_at_ms = now_ms;
    started_at_ms =
        if is_one_of ("inProgress" ∷ []) p.turn_status && not (has_some p.started_at_ms)
        then some now_ms
        else p.started_at_ms;
  }

  unfoldable pub stamp : String → ℤ → EventProjector V → EventProjector V
  unfolding stamped
  stamp thread_id now_ms projector = elim (get thread_id projector) [
    | none ↦ projector
    | some p ↦ insert thread_id (stamped now_ms p) projector
  ]

  abbrev pub is_stale : ℤ → ThreadProjection V → Bool
  is_stale cutoff p =
      before cutoff p.finished_at_ms
      || ltb_ℤ (pos 0) p.updated_at_ms && ltb_ℤ p.updated_at_ms cutoff

  unfoldable pub is_evictable : ℤ → ThreadProjection V → Bool
  is_evictable cutoff p = is_stale cutoff p && not (is_one_of ("inProgress" ∷ []) p.turn_status)

  abbrev pub evictable : ℤ → List (String × ThreadProjection V) → List String
  evictable cutoff [] = []
  evictable cutoff ((id, p) ∷ es) =
      let rest = evictable cutoff es in if is_evictable cutoff p then id ∷ rest else rest

  abbrev pub remove_all : List String → EventProjector V → EventProjector V
  remove_all [] projector = projector
  remove_all (id ∷ ids) projector = remove_all ids (remove id projector)

  -- How many went, and the projections that stay.
  unfoldable pub evict_finished_before : ℤ → EventProjector V → ℕ × EventProjector V
  unfolding is_evictable
  evict_finished_before cutoff projector =
      let ids = evictable cutoff projector.entries in (length ids, remove_all ids projector)

module _ (api : JsonApi) where
  open api use {Value, get as field}

  unfoldable pub apply_kind :
      EventKind → Clock → Value → ThreadProjection Value → ProjectionEffect × ThreadProjection Value
  unfolding project_thread project_status project_settings project_turn_started project_turn_updated
      project_turn_ended project_item project_subagent project_error
  apply_kind thread_event clock params p = (refresh_status, project_thread api params p)
  apply_kind status_event clock params p = (refresh_status, project_status api params p)
  apply_kind settings_event clock params p = (refresh_status, project_settings api params p)
  apply_kind turn_started_event clock params p =
      (refresh_status, project_turn_started api clock params p)
  apply_kind turn_updated_event clock params p = (refresh_status, project_turn_updated api params p)
  apply_kind (turn_ended_event rest) clock params p =
      (turn_ended, project_turn_ended api clock rest params p)
  apply_kind item_event clock params p = (refresh_status, project_item api clock params p)
  apply_kind delta_event clock params p = (refresh_status, p)
  apply_kind plan_event clock params p =
      (refresh_status, record p { plan = or_else (field "plan" params) (some params) })
  apply_kind goal_event clock params p =
      (refresh_status, record p { goal = or_else (field "goal" params) (some params) })
  apply_kind subagent_event clock params p = (refresh_status, project_subagent api params p)
  apply_kind (review_event rest) clock params p = (
    refresh_status,
    record p { review_status = or_else (text_of api "status" params) (some rest) },
  )
  apply_kind error_event clock params p = project_error api clock params p
  apply_kind other_event clock params p = (no_effect, p)

  -- The entry of the thread, with the generation and the moment of the event.
  unfoldable pub touched :
      Clock → AgentEvent Value → String → EventProjector Value → ThreadProjection Value
  unfolding new_thread
  touched clock event id projector =
      let p = unwrap_or (new_thread id event.generation) (get id projector) in
      record p { generation = event.generation; updated_at_ms = max_ℤ p.updated_at_ms clock.first }

  unfoldable pub apply_to :
      Option String
      → Clock
      → AgentEvent Value
      → EventProjector Value
      → ProjectionEffect × EventProjector Value
  unfolding apply_kind kind_of touched
  apply_to none clock event projector = (no_effect, projector)
  apply_to (some id) clock event projector =
      let (effect, p) =
        apply_kind (kind_of event.method) clock event.params (touched clock event id projector) in
      (effect, insert id p projector)

  unfoldable pub apply :
      Clock → AgentEvent Value → EventProjector Value → ProjectionEffect × EventProjector Value
  unfolding apply_to thread_id_from_params
  apply clock event projector =
      apply_to (thread_id_from_params api event.params) clock event projector
