-- ===== src/Projector/Histories.antt =====
-- rust/crates/engine/src/projector.rs: any calls of the projector, and what holds of every thread.
use codex_telegram_bridge.Service.Engine.{event}
use codex_telegram_bridge.Projector.Types.{ThreadProjection, AgentEvent, EventProjector, new_thread}
use codex_telegram_bridge.Projector.Reading.{thread_id_from_params}
use codex_telegram_bridge.Projector.Handlers.{Clock, truncate_items}
use codex_telegram_bridge.Projector.Apply.{
  apply, EventKind, kind_of, restore, projection, evictable, remove_all, evict_finished_before,
  apply_kind, touched, apply_to, stamped, stamp,
}
use codex_telegram_bridge.Prelude.Map.{get, insert, remove, get-remove, get-insert}
use codex_telegram_bridge.Prelude.Int.{ℤ, int_ord}
use codex_telegram_bridge.Prelude.{
  ℕ, String, ◌≡◌, subst, inl, inr, Option, none, some, List, [], ◌∷◌, arith, Bool-cases,
  Option-cases, All, is_blank, all, ◌==◌, string_ord, nat_ord, pair_ord, option_ord, list_ord,
}
use codex_telegram_bridge.Json.{JsonApi}

pub data Call (V : Type 0) : Type 0 where
  event_came : Clock → AgentEvent V → Call V
  row_restored : ThreadProjection V → Call V
  cutoff_passed : ℤ → Call V
  time_stamped : String → ℤ → Call V

-- Is an invariant of a thread: what a new thread has, what every event keeps, and what the bound on
-- items makes of a row that is as `Q` demands.
pub record IsInvariant (api : JsonApi) (P Q : ThreadProjection api.Value → Type 0) : Type 0 where
  pub of_new : (id : String) (generation : ℕ) → P (new_thread id generation)
  pub of_touched :
      (p : ThreadProjection api.Value) (generation : ℕ) (at_ms : ℤ)
      → P p
      → P (record p { generation = generation; updated_at_ms = at_ms })
  pub of_stamped :
      (p : ThreadProjection api.Value) (started : Option ℤ) (at_ms : ℤ)
      → P p
      → P (record p { updated_at_ms = at_ms; started_at_ms = started })
  pub of_event :
      (kind : EventKind) (clock : Clock) (params : api.Value) (p : ThreadProjection api.Value)
      → P p
      → P (apply_kind api kind clock params p).1
  pub of_row : (p : ThreadProjection api.Value) → Q p → P (truncate_items p)

module _ (api : JsonApi) where
  open api use {Value}

  unfoldable pub step : Call Value → EventProjector Value → EventProjector Value
  unfolding apply restore evict_finished_before stamp
  step (event_came clock event) projector = (apply api clock event projector).1
  step (row_restored p) projector = restore p projector
  step (cutoff_passed cutoff) projector = (evict_finished_before cutoff projector).1
  step (time_stamped id now_ms) projector = stamp id now_ms projector

  unfoldable pub run : List (Call Value) → EventProjector Value → EventProjector Value
  unfolding step
  run [] projector = projector
  run (call ∷ calls) projector = run calls (step call projector)

  abbrev pub Everywhere : (ThreadProjection Value → Type 0) → EventProjector Value → Type 0
  Everywhere P projector =
      (id : String) (p : ThreadProjection Value) → projection id projector ≡ some p → P p

  -- The rows that are restored are as `Q` demands.
  abbrev pub RestoresAs : (ThreadProjection Value → Type 0) → Call Value → Type 0
  RestoresAs Q (event_came clock event) = Unit
  RestoresAs Q (row_restored p) = Q p
  RestoresAs Q (cutoff_passed cutoff) = Unit
  RestoresAs Q (time_stamped id now_ms) = Unit

  module _ {P Q : ThreadProjection Value → Type 0} (i : IsInvariant api P Q) where
    Everywhere-insert :
        (id : String) (p : ThreadProjection Value) (projector : EventProjector Value)
        → P p
        → Everywhere P projector
        → Everywhere P (insert id p projector)
    unfolding projection
    Everywhere-insert id p projector h all other q e = elim (Bool-cases (id == other)) [
      | inl same ↦ subst P (ground (arith, get-insert id other p projector)) h
      | inr differs ↦ all other q (ground (arith, get-insert id other p projector))
    ]

    Everywhere-remove_all :
        (ids : List String) (projector : EventProjector Value)
        → Everywhere P projector
        → Everywhere P (remove_all ids projector)
    unfolding projection
    Everywhere-remove_all [] projector all = all
    Everywhere-remove_all (id ∷ ids) projector all =
        Everywhere-remove_all ids (remove id projector)
          (λ other q e. all other q (ground (arith, get-remove id other projector)))

    touched_lem :
        (clock : Clock) (event : AgentEvent Value) (id : String) (projector : EventProjector Value)
        → Everywhere P projector
        → P (touched api clock event id projector)
    unfolding touched projection
    touched_lem clock event id projector all = elim (Option-cases (get id projector)) [
      | inl e ↦ rw (e, touched) (i.of_touched _ _ _ (i.of_new id event.generation))
      | inr (p, e) ↦ rw (e, touched) (i.of_touched _ _ _ (all id p e))
    ]

    apply_to-Everywhere :
        (id : Option String) (clock : Clock) (event : AgentEvent Value)
        (projector : EventProjector Value)
        → Everywhere P projector
        → Everywhere P (apply_to api id clock event projector).1
    unfolding apply_to
    apply_to-Everywhere none clock event projector all = all
    apply_to-Everywhere (some id) clock event projector all =
        Everywhere-insert id _ projector
          (i.of_event (kind_of event.method) clock event.params _
            (touched_lem clock event id projector all))
          all

    step-Everywhere :
        (call : Call Value) (projector : EventProjector Value)
        → RestoresAs Q call
        → Everywhere P projector
        → Everywhere P (step call projector)
    unfolding step apply restore evict_finished_before stamp stamped projection
    step-Everywhere (event_came clock event) projector rows all =
        apply_to-Everywhere (thread_id_from_params api event.params) clock event projector all
    step-Everywhere (row_restored p) projector rows all = elim (Bool-cases (is_blank p.thread_id)) [
      | inl e ↦ rw (e, restore) all
      | inr e ↦ rw (e, restore) (Everywhere-insert p.thread_id _ projector (i.of_row p rows) all)
    ]
    step-Everywhere (cutoff_passed cutoff) projector rows all =
        Everywhere-remove_all (evictable cutoff projector.entries) projector all
    step-Everywhere (time_stamped id now_ms) projector rows all =
        elim (Option-cases (get id projector)) [
          | inl e ↦ rw (e, stamp) all
          | inr (p, e) ↦
              rw (e, stamp)
                (Everywhere-insert id _ projector (i.of_stamped p _ now_ms (all id p e)) all)
        ]

    pub run-Everywhere :
        (calls : List (Call Value)) (projector : EventProjector Value)
        → All (RestoresAs Q) calls
        → Everywhere P projector
        → Everywhere P (run calls projector)
    unfolding run
    run-Everywhere [] projector rows all = all
    run-Everywhere (call ∷ calls) projector rows all =
        run-Everywhere calls (step call projector) rows.1
          (step-Everywhere call projector rows.0 all)
