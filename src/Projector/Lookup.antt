-- ===== src/Projector/Lookup.antt =====
-- rust/crates/engine/src/projector.rs: the thread that an event is about, and the others.
use codex_telegram_bridge.Projector.Types.{ThreadProjection, AgentEvent, EventProjector}
use codex_telegram_bridge.Projector.Reading.{thread_id_from_params}
use codex_telegram_bridge.Projector.Handlers.{Clock}
use codex_telegram_bridge.Projector.Apply.{
  apply, EventKind, kind_of, projection, apply_kind, touched, apply_to,
}
use codex_telegram_bridge.Prelude.Map.{get-insert}
use codex_telegram_bridge.Prelude.Int.{ℤ, max_ℤ, int_ord}
use codex_telegram_bridge.Prelude.{
  ℕ, String, ◌≡◌, refl, ap, ◌∙◌, ◌≢◌, inl, inr, some, arith, if◌then◌else◌, Bool-cases,
  Option-cases, ◌==◌, string_ord, eq_self, nat_ord, pair_ord, option_ord, list_ord, sym, subst,
  eq_iff,
}
use codex_telegram_bridge.Json.{JsonApi}

module _ (api : JsonApi) where
  open api use {Value}

  -- The thread as the event leaves it.
  unfoldable pub projected :
      Clock → AgentEvent Value → String → EventProjector Value → ThreadProjection Value
  unfolding apply_kind kind_of touched
  projected clock happening id projector =
      (apply_kind api (kind_of happening.method) clock happening.params
        (touched api clock happening id projector)).1

  get-apply_to :
      (id other : String) (clock : Clock) (happening : AgentEvent Value)
      (projector : EventProjector Value)
      → projection other (apply_to api (some id) clock happening projector).1 ≡ (
          if id == other
          then some (projected clock happening id projector)
          else projection other projector)
  unfolding apply_to projection projected
  get-apply_to id other clock happening projector =
      get-insert id other (projected clock happening id projector) projector

  -- The thread of an event is as the event leaves it.
  pub projection-apply :
      (id : String) (clock : Clock) (happening : AgentEvent Value)
      (projector : EventProjector Value)
      → thread_id_from_params api happening.params ≡ some id
      → projection id (apply api clock happening projector).1
        ≡ some (projected clock happening id projector)
  unfolding apply
  projection-apply id clock happening projector e =
      rw (apply, e) (ground (arith, get-apply_to id id clock happening projector, eq_self id))

  -- An event leaves every thread as it was but the one whose name it carries.
  pub apply_isolated :
      (other : String) (clock : Clock) (happening : AgentEvent Value)
      (projector : EventProjector Value)
      → thread_id_from_params api happening.params ≢ some other
      → projection other (apply api clock happening projector).1 ≡ projection other projector
  unfolding apply
  apply_isolated other clock happening projector differs =
      elim (Option-cases (thread_id_from_params api happening.params)) [
        | inl e ↦ rw (apply, e) refl
        | inr (id, e) ↦ elim (Bool-cases (id == other)) [
          | inl same ↦ absurd (differs (e ∙ ap some (string_ord.eq_of_cmp id other (ground arith))))
          | inr apart ↦
              rw (apply, e) (ground (arith, get-apply_to id other clock happening projector))
        ]
      ]

  -- A thread that is there is read as it was, but for the generation and the moment.
  pub touched_there :
      (id : String) (clock : Clock) (happening : AgentEvent Value)
      (projector : EventProjector Value) (p : ThreadProjection Value)
      → projection id projector ≡ some p
      → touched api clock happening id projector ≡ record p {
        generation = happening.generation;
        updated_at_ms = max_ℤ p.updated_at_ms clock.first;
      }
  unfolding touched projection
  touched_there id clock happening projector p e = rw (e, touched) refl

  -- What is true of a thread and kept by events stays true of it, whatever event comes.
  pub apply_keeps :
      (P : ThreadProjection Value → Type 0)
      → ((p : ThreadProjection Value) (generation : ℕ) (at_ms : ℤ)
          → P p
          → P (record p { generation = generation; updated_at_ms = at_ms }))
      → ((kind : EventKind) (clock : Clock) (params : Value) (p : ThreadProjection Value)
          → P p
          → P (apply_kind api kind clock params p).1)
      → (id : String) (clock : Clock) (happening : AgentEvent Value)
        (projector : EventProjector Value)
      → ((p : ThreadProjection Value) × (projection id projector ≡ some p) × P p)
      → (q : ThreadProjection Value) × (projection id (apply api clock happening projector).1
          ≡ some q)
        × P q
  unfolding projected
  apply_keeps P of_touched of_event id clock happening projector (p, e, h) =
      elim (Bool-cases (thread_id_from_params api happening.params == some id)) [
        | inl same ↦ (
          projected clock happening id projector,
          projection-apply id clock happening projector
              ((eq_iff (thread_id_from_params api happening.params) (some id)).0 same),
          of_event (kind_of happening.method) clock happening.params _
              (subst P (sym (touched_there id clock happening projector p e)) (of_touched p _ _ h)),
        )
        | inr apart ↦ (
          p,
          apply_isolated id clock happening projector (λ same. absurd (
                ground
                  (arith, (eq_iff (thread_id_from_params api happening.params) (some id)).1 same)))
              ∙ e,
          h,
        )
      ]
