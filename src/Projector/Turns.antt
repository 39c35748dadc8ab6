-- ===== src/Projector/Turns.antt =====
-- rust/crates/engine/src/projector.rs: the total of the turns that have ended.
use codex_telegram_bridge.Projector.Lookup.{apply_keeps, projected, projection-apply, touched_there}
use codex_telegram_bridge.Projector.Types.{ThreadProjection, AgentEvent, EventProjector}
use codex_telegram_bridge.Projector.Subagents.{project_item_subagents}
use codex_telegram_bridge.Projector.Reading.{
  merge_from, merge_thread, clear_recoverable_error, clear_if, thread_id_from_params,
}
use codex_telegram_bridge.Projector.Handlers.{
  Clock, truncate_items, count_turn, project_thread, project_status, project_settings,
  project_turn_started, project_turn_updated, project_turn_ended, put_item, project_item,
  project_subagent, project_error, turn_duration,
}
use codex_telegram_bridge.Projector.Apply.{
  apply, EventKind, kind_of, apply_kind, touched, thread_event, status_event, settings_event,
  turn_started_event, turn_updated_event, turn_ended_event, item_event, delta_event, plan_event,
  goal_event, subagent_event, review_event, error_event, other_event, projection,
}
use codex_telegram_bridge.Prelude.Map.{contains}
use codex_telegram_bridge.Prelude.Int.{ℤ, int_ord}
use codex_telegram_bridge.Prelude.{
  String, ◌≡◌, true, Option, some, List, [], ◌∷◌, arith, ◌>>=◌, string_ord, nat_ord, pair_ord,
  option_ord, list_ord, ap, ◌∙◌, eq_self,
}
use codex_telegram_bridge.Json.{JsonApi, text_of}

module _ (api : JsonApi) where
  open api use {Value}

  -- The events as they come, each with its readings of the clock.
  unfoldable pub apply_all :
      List (Clock × AgentEvent Value) → EventProjector Value → EventProjector Value
  apply_all [] projector = projector
  apply_all ((clock, happening) ∷ rest) projector =
      apply_all rest (apply api clock happening projector).1

  -- The turn that an event names.
  abbrev pub turn_named : AgentEvent Value → Option String
  turn_named happening = api.get "turn" happening.params >>= text_of api "id"

  unfoldable pub total : String → EventProjector Value → Option ℤ
  total id projector = projection id projector >>= λ p. some p.completed_turns_duration_ms

  -- The turn counts in the total of the thread.
  abbrev HasCounted : String → String → EventProjector Value → Type 0
  HasCounted id turn projector =
      (p : ThreadProjection Value) × (projection id projector ≡ some p)
      × (contains turn p.completed_turn_ids ≡ true)

  apply_kind-counted :
      (kind : EventKind) (clock : Clock) (params : Value) (turn : String)
      (p : ThreadProjection Value)
      → contains turn p.completed_turn_ids ≡ true
      → contains turn (apply_kind api kind clock params p).1.completed_turn_ids ≡ true
  unfolding apply_kind project_thread project_status project_settings project_turn_started
      project_turn_updated project_turn_ended project_subagent project_error clear_if
      clear_recoverable_error count_turn merge_thread merge_from project_item put_item
      truncate_items project_item_subagents
  apply_kind-counted thread_event clock params turn p h = ground arith
  apply_kind-counted status_event clock params turn p h = ground arith
  apply_kind-counted settings_event clock params turn p h = ground arith
  apply_kind-counted turn_started_event clock params turn p h = ground arith
  apply_kind-counted turn_updated_event clock params turn p h = ground arith
  apply_kind-counted (turn_ended_event rest) clock params turn p h = ground arith
  apply_kind-counted item_event clock params turn p h = ground arith
  apply_kind-counted delta_event clock params turn p h = ground arith
  apply_kind-counted plan_event clock params turn p h = ground arith
  apply_kind-counted goal_event clock params turn p h = ground arith
  apply_kind-counted subagent_event clock params turn p h = ground arith
  apply_kind-counted (review_event rest) clock params turn p h = ground arith
  apply_kind-counted error_event clock params turn p h = ground arith
  apply_kind-counted other_event clock params turn p h = ground arith

  apply_all-counted :
      (events : List (Clock × AgentEvent Value)) (id turn : String)
      (projector : EventProjector Value)
      → HasCounted id turn projector
      → HasCounted id turn (apply_all events projector)
  unfolding apply_all
  apply_all-counted [] id turn projector h = h
  apply_all-counted ((clock, happening) ∷ rest) id turn projector h =
      apply_all-counted rest id turn (apply api clock happening projector).1 (
        apply_keeps api (λ p. contains turn p.completed_turn_ids ≡ true)
          (λ p generation at_ms there. there)
          (λ kind clock' params p there. apply_kind-counted kind clock' params turn p there) id
          clock happening projector h)

  -- The end of a named turn counts it, once.
  count_turn-counts :
      (turn : String) (duration : ℤ) (p : ThreadProjection Value)
      → (contains turn (count_turn (some turn) duration p).completed_turn_ids ≡ true)
        × (contains turn p.completed_turn_ids ≡ true
            → (count_turn (some turn) duration p).completed_turns_duration_ms
              ≡ p.completed_turns_duration_ms)
  unfolding count_turn
  count_turn-counts turn duration p =
      (ground (arith, eq_self turn), λ there. ground (arith, eq_self turn))

  project_turn_ended-counts :
      (clock : Clock) (rest turn : String) (params : Value) (p : ThreadProjection Value)
      → (api.get "turn" params >>= text_of api "id") ≡ some turn
      → let q = project_turn_ended api clock rest params p in
        (contains turn q.completed_turn_ids ≡ true)
        × (contains turn p.completed_turn_ids ≡ true
            → q.completed_turns_duration_ms ≡ p.completed_turns_duration_ms)
  unfolding project_turn_ended
  project_turn_ended-counts clock rest turn params p e =
      rw (project_turn_ended, e)
        (count_turn-counts turn (turn_duration api clock params p.started_at_ms) _)

  -- The event ends this turn of this thread.
  pub record EndsTurn (id turn : String) (happening : AgentEvent Value) : Type 0 where
    pub ended : String
    pub is_end : kind_of happening.method ≡ turn_ended_event ended
    pub is_of_thread : thread_id_from_params api happening.params ≡ some id
    pub is_of_turn : turn_named happening ≡ some turn

  projected-counts :
      (id turn : String) (clock : Clock) (happening : AgentEvent Value)
      (projector : EventProjector Value)
      → EndsTurn id turn happening
      → let p = touched api clock happening id projector in
        let q = projected api clock happening id projector in
        (contains turn q.completed_turn_ids ≡ true)
        × (contains turn p.completed_turn_ids ≡ true
            → q.completed_turns_duration_ms ≡ p.completed_turns_duration_ms)
  unfolding projected apply_kind
  projected-counts id turn clock happening projector h =
      rw (projected, h.is_end)
        (project_turn_ended-counts clock h.ended turn happening.params
          (touched api clock happening id projector) h.is_of_turn)

  -- After an event that ends a turn of a thread, and whatever events come since, of whatever threads,
  -- another end of the same turn leaves the total of the thread as it is.
  pub counted_once :
      (events : List (Clock × AgentEvent Value)) (id turn : String) (clock later : Clock)
      (first second : AgentEvent Value) (projector : EventProjector Value)
      → EndsTurn id turn first
      → EndsTurn id turn second
      → let since = apply_all events (apply api clock first projector).1 in
        total id (apply api later second since).1 ≡ total id since
  unfolding total
  counted_once events id turn clock later first second projector ends again =
      let (p, e, there) = apply_all-counted events id turn (apply api clock first projector).1 (
        _,
        projection-apply api id clock first projector ends.is_of_thread,
        (projected-counts id turn clock first projector ends).0,
      ) in
      let since = apply_all events (apply api clock first projector).1 in
      let seen = touched_there api id later second since p e in
      let same = (projected-counts id turn later second since again).1 (rw seen there) in
      rw (projection-apply api id later second since again.is_of_thread, e)
        (ap some (same ∙ ap (λ q. q.completed_turns_duration_ms) seen))
