-- ===== src/Workflow/Lifecycle/Delivering.antt =====
-- The observations of a delivery and of a turn follow the lifecycle.
use codex_telegram_bridge.Prelude.{
  ◌≡◌, inl, inr, is_blank, false, not, ◌&&◌, ◌||◌, Option, none, some, String, ◌==◌, string_ord,
  pair_ord, option_ord, arith, Bool-cases, eq_iff,
}
use codex_telegram_bridge.Prelude.Map.{get, get-insert, Distinct, keys}
use codex_telegram_bridge.Workflow.Types.{
  started, PromptIntent, TurnTerminalStatus, DeliveryObservation, present, absent, unknown,
  CodexWorkflowProjection,
}
use codex_telegram_bridge.Workflow.Prompts.{put_intent, same_state}
use codex_telegram_bridge.Workflow.Delivery.{
  is_settled, may_start, observe_intent, observe_delivery, settle, settle_started, start_intent,
  observe_turn_started, observe_turn_completed,
}
use codex_telegram_bridge.Workflow.Cases.{if_cases, intent_cases, get-finish_prompt}
use codex_telegram_bridge.Workflow.Cases.{complete_found, get-observe_turn_completed}
use codex_telegram_bridge.Prelude.{Bool-cases, inl, inr}
use codex_telegram_bridge.Workflow.Delivery.{observe_turn_completed}
use codex_telegram_bridge.Prelude.Map.{keys, Distinct}
use codex_telegram_bridge.Workflow.Lifecycle.{
  Moves-refl, Moves, Moves-refl, Evolves, Evolves-refl, Evolves-put, EvolvesAt,
}

-- Writing an intent and finishing it on the spot.
pub settle-Evolves :
    (id : String) (terminal : Option TurnTerminalStatus) (p : CodexWorkflowProjection) (j : String)
    {i k : PromptIntent}
    → get id p.intents ≡ some i
    → Moves i k
    → is_settled i.state ≡ false
    → EvolvesAt j p (settle id terminal (put_intent k id p)).1
unfolding settle
settle-Evolves id none p j e m unsettled = Evolves-put p id j e m
settle-Evolves id (some status) p j {i} {k} e m unsettled = ground (
  arith,
  get-finish_prompt id status (put_intent k id p) j,
  get-insert id j k p.intents,
  eq_iff id j,
  Evolves-refl (get j p.intents),
)

pub observe_intent-Evolves :
    (id : String) (i : PromptIntent) (o : DeliveryObservation) (p : CodexWorkflowProjection)
    (j : String)
    → get id p.intents ≡ some i
    → is_settled i.state ≡ false
    → EvolvesAt j p (observe_intent id i o p).1
unfolding observe_intent
observe_intent-Evolves id i (present turn_id terminal) p j e unsettled =
    if_cases (EvolvesAt j p) (is_blank turn_id) _ _ (λ _. Evolves-refl _)
      λ _.
        if_cases (EvolvesAt j p) (same_state i.state started && not (i.turn_id == some turn_id)) _ _
          (λ _. Evolves-refl _) λ _. settle-Evolves id terminal p j e (ground arith) unsettled
observe_intent-Evolves id i absent p j e unsettled = Evolves-put p id j e (ground arith)
observe_intent-Evolves id i unknown p j e unsettled = Evolves-put p id j e (ground arith)

pub observe_delivery-Evolves :
    (id : String) (o : DeliveryObservation) (p : CodexWorkflowProjection) (j : String)
    → EvolvesAt j p (observe_delivery id o p).1
unfolding observe_delivery
observe_delivery-Evolves id o p j = intent_cases (EvolvesAt j p) id p _ (Evolves-refl _) λ i e.
    if_cases (EvolvesAt j p) (is_settled i.state) _ _ (λ _. Evolves-refl _)
      (observe_intent-Evolves id i o p j e)

-- A started prompt whose turn has ended already.
pub settle_started-Evolves :
    (id thread_id turn_id : String) (p : CodexWorkflowProjection) (j : String) {i : PromptIntent}
    → get id p.intents ≡ some i
    → is_settled i.state ≡ false
    → EvolvesAt j p (settle_started id thread_id turn_id p).1
unfolding settle_started settle
settle_started-Evolves id thread_id turn_id p j {i} e unsettled =
    finished (get (thread_id, turn_id) p.terminal_turns)
  where
    finished : (o : Option TurnTerminalStatus) → EvolvesAt j p (settle id o p).1
    finished none = Evolves-refl _
    finished (some status) =
        ground (arith, get-finish_prompt id status p j, eq_iff id j, Evolves-refl (get j p.intents))

pub observe_turn_started-Evolves :
    (id turn_id : String) (p : CodexWorkflowProjection) (j : String)
    → EvolvesAt j p (observe_turn_started id turn_id p).1
unfolding observe_turn_started start_intent
observe_turn_started-Evolves id turn_id p j =
    intent_cases (EvolvesAt j p) id p _ (Evolves-refl _) λ i e.
      if_cases (EvolvesAt j p) (is_blank turn_id || is_blank i.scope.thread_id) _ _
        (λ _. Evolves-refl _)
        λ _.
          if_cases (EvolvesAt j p) (same_state i.state started && i.turn_id == some turn_id) _ _
            (λ s. settle_started-Evolves id i.scope.thread_id turn_id p j e (ground arith))
            λ _.
              if_cases (EvolvesAt j p) (not (may_start i.state)) _ _ (λ _. Evolves-refl _)
                λ m. settle-Evolves id _ p j e (ground arith) (ground arith)

completed_Evolves :
    (thread_id turn_id : String) (status : TurnTerminalStatus) (o : Option PromptIntent)
    → Evolves o (complete_found thread_id turn_id status o)
completed_Evolves thread_id turn_id status none = tt
completed_Evolves thread_id turn_id status (some i) = ground (arith, Moves-refl i)

pub observe_turn_completed-Evolves :
    (thread_id turn_id : String) (status : TurnTerminalStatus) (p : CodexWorkflowProjection)
    (j : String)
    → Distinct (keys p.intents)
    → EvolvesAt j p (observe_turn_completed thread_id turn_id status p).1
unfolding observe_turn_completed
observe_turn_completed-Evolves thread_id turn_id status p j d =
    elim (Bool-cases (is_blank thread_id || is_blank turn_id)) [
      | inl blank ↦ rw (blank, observe_turn_completed) (Evolves-refl _)
      | inr h ↦
          rw (get-observe_turn_completed thread_id turn_id status p j h d)
            (completed_Evolves thread_id turn_id status (get j p.intents))
    ]
