-- ===== src/Workflow/Spent/Untouched.antt =====
-- The methods on prompts and on plans leave the server requests alone.
use codex_telegram_bridge.Prelude.{
  ◌≡◌, refl, ◌∙◌, ◌&&◌, ◌||◌, is_blank, option_ord, pair_ord, not, Option, none, some, String, List,
  [], ◌∷◌, string_ord, arith, ◌==◌,
}
use codex_telegram_bridge.Prelude.Map.{insert}
use codex_telegram_bridge.Workflow.Types.{
  started, present, absent, unknown, PromptIntent, WorkflowScope, DeliveryObservation,
  TurnTerminalStatus, PlanPublication, CodexWorkflowProjection,
}
use codex_telegram_bridge.Workflow.Prompts.{
  create_prompt, queue_prompt, await_choice, dispatch_from, finish_prompt, same_state,
}
use codex_telegram_bridge.Workflow.Delivery.{
  may_start, is_settled, start_intent, observe_delivery, observe_intent, settle,
  observe_turn_started, observe_turn_completed, finish_all, affected_keys,
}
use codex_telegram_bridge.Workflow.Requests.{observe_plan}
use codex_telegram_bridge.Workflow.Cases.{if_cases, intent_cases}

abbrev Keeps : CodexWorkflowProjection → CodexWorkflowProjection → Type 0
Keeps p q = q.pending_requests ≡ p.pending_requests

pub create_prompt-requests :
    (id : String) (scope : WorkflowScope) (p : CodexWorkflowProjection)
    → (create_prompt id scope p).1.pending_requests ≡ p.pending_requests
unfolding create_prompt
create_prompt-requests id scope p = ground arith

pub queue_prompt-requests :
    (id : String) (p : CodexWorkflowProjection)
    → (queue_prompt id p).1.pending_requests ≡ p.pending_requests
unfolding queue_prompt
queue_prompt-requests id p = ground arith

pub await_choice-requests :
    (id : String) (p : CodexWorkflowProjection)
    → (await_choice id p).1.pending_requests ≡ p.pending_requests
unfolding await_choice
await_choice-requests id p = ground arith

pub dispatch_from-requests :
    (ids : List String) (p : CodexWorkflowProjection)
    → (dispatch_from ids p).1.pending_requests ≡ p.pending_requests
unfolding dispatch_from
dispatch_from-requests ids p = ground arith

pub finish_prompt-requests :
    (id : String) (status : TurnTerminalStatus) (p : CodexWorkflowProjection)
    → (finish_prompt id status p).1.pending_requests ≡ p.pending_requests
unfolding finish_prompt
finish_prompt-requests id status p = ground arith

pub settle-requests :
    (id : String) (o : Option TurnTerminalStatus) (p : CodexWorkflowProjection)
    → (settle id o p).1.pending_requests ≡ p.pending_requests
unfolding settle
settle-requests id none p = refl
settle-requests id (some status) p = finish_prompt-requests id status p

pub observe_intent-requests :
    (id : String) (i : PromptIntent) (o : DeliveryObservation) (p : CodexWorkflowProjection)
    → (observe_intent id i o p).1.pending_requests ≡ p.pending_requests
unfolding observe_intent
observe_intent-requests id i (present turn_id terminal) p =
    if_cases (Keeps p) (is_blank turn_id) _ _ (λ _. refl)
      λ _.
        if_cases (Keeps p) (same_state i.state started && not (i.turn_id == some turn_id)) _ _
          (λ _. refl) λ _. settle-requests id terminal _
observe_intent-requests id i absent p = refl
observe_intent-requests id i unknown p = refl

pub observe_delivery-requests :
    (id : String) (o : DeliveryObservation) (p : CodexWorkflowProjection)
    → (observe_delivery id o p).1.pending_requests ≡ p.pending_requests
unfolding observe_delivery
observe_delivery-requests id o p = intent_cases (Keeps p) id p _ refl λ i _.
    if_cases (Keeps p) (is_settled i.state) _ _ (λ _. refl) λ _. observe_intent-requests id i o p

pub observe_turn_started-requests :
    (id turn_id : String) (p : CodexWorkflowProjection)
    → (observe_turn_started id turn_id p).1.pending_requests ≡ p.pending_requests
unfolding observe_turn_started start_intent
observe_turn_started-requests id turn_id p = intent_cases (Keeps p) id p _ refl λ i _.
    if_cases (Keeps p) (is_blank turn_id || is_blank i.scope.thread_id) _ _ (λ _. refl)
      λ _.
        if_cases (Keeps p) (same_state i.state started && i.turn_id == some turn_id) _ _
          (λ _. settle-requests id _ p)
          λ _.
            if_cases (Keeps p) (not (may_start i.state)) _ _ (λ _. refl) λ _. settle-requests id _ _

pub finish_all-requests :
    (ids : List String) (status : TurnTerminalStatus) (p : CodexWorkflowProjection)
    → (finish_all ids status p).1.pending_requests ≡ p.pending_requests
unfolding finish_all
finish_all-requests [] status p = refl
finish_all-requests (id ∷ ids) status p =
    finish_all-requests ids status (finish_prompt id status p).1
    ∙ finish_prompt-requests id status p

pub observe_turn_completed-requests :
    (thread_id turn_id : String) (status : TurnTerminalStatus) (p : CodexWorkflowProjection)
    → (observe_turn_completed thread_id turn_id status p).1.pending_requests ≡ p.pending_requests
unfolding observe_turn_completed
observe_turn_completed-requests thread_id turn_id status p = ground (
  arith,
  finish_all-requests (affected_keys thread_id turn_id p.intents.entries) status
      (record p { terminal_turns = insert (thread_id, turn_id) status p.terminal_turns }),
)

pub observe_plan-requests :
    (publication : PlanPublication) (p : CodexWorkflowProjection)
    → (observe_plan publication p).1.pending_requests ≡ p.pending_requests
unfolding observe_plan
observe_plan-requests publication p = ground arith
