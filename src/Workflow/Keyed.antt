-- ===== src/Workflow/Keyed.antt =====
-- No prompt is stored under two keys: every method keeps the keys of the intents distinct.
use codex_telegram_bridge.Prelude.{
  ℕ, ◌≡◌, ◌⊎◌, inl, inr, Bool, not, ◌&&◌, ◌||◌, Option, none, some, String, List, [], ◌∷◌, ◌==◌,
  string_ord, option_ord, pair_ord, arith, is_blank,
}
use codex_telegram_bridge.Prelude.Map.{
  insert, keys, Distinct, Distinct-insert, map_values, keys-map_values,
}
use codex_telegram_bridge.Workflow.Types.{
  WorkflowScope, PromptIntent, TurnTerminalStatus, DeliveryObservation, present, absent, unknown,
  PlanPublication, PendingServerRequest, submitting, queued, awaiting_choice, started,
  CodexWorkflowProjection, new,
}
use codex_telegram_bridge.Workflow.Prompts.{
  same_state, put_intent, transition_prompt, validate_scope, new_intent, create_prompt,
  queue_prompt, await_choice, dispatch_head, dispatch_from, begin_dispatch, finish_prompt, queue_of,
}
use codex_telegram_bridge.Workflow.Delivery.{
  is_settled, may_start, settle, observe_intent, observe_delivery, start_intent,
  observe_turn_started, finish_all, observe_turn_completed, affected_keys,
}
use codex_telegram_bridge.Workflow.Requests.{
  register_server_request, claim_server_request, mark_server_request_responded,
  observe_server_request_resolved, observe_plan,
}
use codex_telegram_bridge.Workflow.Connection.{doubt, observe_connection}
use codex_telegram_bridge.Workflow.Cases.{try_cases, if_cases, intent_cases, option_cases}
use codex_telegram_bridge.Workflow.Machine.{
  Call, connection, create, queue, choice, dispatch, delivery, turn_start, turn_end, plan, register,
  claim, respond, resolution, step, run,
}

abbrev pub IsKeyed : CodexWorkflowProjection → Type 0
IsKeyed p = Distinct (keys p.intents)

put-IsKeyed :
    (i : PromptIntent) (id : String) (p : CodexWorkflowProjection)
    → IsKeyed p
    → IsKeyed (put_intent i id p)
put-IsKeyed i id p k = Distinct-insert id i p.intents k

finish_prompt-IsKeyed :
    (id : String) (status : TurnTerminalStatus) (p : CodexWorkflowProjection)
    → IsKeyed p
    → IsKeyed (finish_prompt id status p).1
unfolding finish_prompt
finish_prompt-IsKeyed id status p k =
    intent_cases IsKeyed id p _ k
      λ i _. option_cases IsKeyed i.turn_id _ _ (λ _. k) λ _ _. put-IsKeyed _ id p k

settle-IsKeyed :
    (id : String) (terminal : Option TurnTerminalStatus) (p : CodexWorkflowProjection)
    → IsKeyed p
    → IsKeyed (settle id terminal p).1
unfolding settle
settle-IsKeyed id none p k = k
settle-IsKeyed id (some status) p k = finish_prompt-IsKeyed id status p k

create_prompt-IsKeyed :
    (id : String) (scope : WorkflowScope) (p : CodexWorkflowProjection)
    → IsKeyed p
    → IsKeyed (create_prompt id scope p).1
unfolding create_prompt
create_prompt-IsKeyed id scope p k =
    if_cases IsKeyed (is_blank id) _ _ (λ _. k)
      λ _.
        try_cases IsKeyed (validate_scope scope) p _ k
          λ _ _. ground (arith, put-IsKeyed (new_intent id scope) id p k)

queue_prompt-IsKeyed :
    (id : String) (p : CodexWorkflowProjection) → IsKeyed p → IsKeyed (queue_prompt id p).1
unfolding queue_prompt
queue_prompt-IsKeyed id p k =
    intent_cases IsKeyed id p _ k
      λ i _. try_cases IsKeyed (transition_prompt i queued) p _ k λ j _. put-IsKeyed j id p k

await_choice-IsKeyed :
    (id : String) (p : CodexWorkflowProjection) → IsKeyed p → IsKeyed (await_choice id p).1
unfolding await_choice
await_choice-IsKeyed id p k =
    intent_cases IsKeyed id p _ k λ i _.
      try_cases IsKeyed (transition_prompt i awaiting_choice) p _ k λ j _. put-IsKeyed j id p k

dispatch_from-IsKeyed :
    (ids : List String) (p : CodexWorkflowProjection) → IsKeyed p → IsKeyed (dispatch_from ids p).1
unfolding dispatch_from dispatch_head
dispatch_from-IsKeyed [] p k = k
dispatch_from-IsKeyed (id ∷ ids) p k = intent_cases IsKeyed id p _ k λ i _.
    if_cases IsKeyed (same_state i.state queued) _ _
      (λ _. try_cases IsKeyed (transition_prompt i submitting) p _ k λ j _. put-IsKeyed j id p k)
      (λ _. k)

observe_intent-IsKeyed :
    (id : String) (i : PromptIntent) (o : DeliveryObservation) (p : CodexWorkflowProjection)
    → IsKeyed p
    → IsKeyed (observe_intent id i o p).1
unfolding observe_intent
observe_intent-IsKeyed id i (present turn_id terminal) p k =
    if_cases IsKeyed (is_blank turn_id) _ _ (λ _. k)
      λ _.
        if_cases IsKeyed (same_state i.state started && not (i.turn_id == some turn_id)) _ _
          (λ _. k) λ _. settle-IsKeyed id terminal _ (put-IsKeyed _ id p k)
observe_intent-IsKeyed id i absent p k = put-IsKeyed _ id p k
observe_intent-IsKeyed id i unknown p k = put-IsKeyed _ id p k

observe_delivery-IsKeyed :
    (id : String) (o : DeliveryObservation) (p : CodexWorkflowProjection)
    → IsKeyed p
    → IsKeyed (observe_delivery id o p).1
unfolding observe_delivery
observe_delivery-IsKeyed id o p k =
    intent_cases IsKeyed id p _ k λ i _.
      if_cases IsKeyed (is_settled i.state) _ _ (λ _. k) λ _. observe_intent-IsKeyed id i o p k

pub observe_turn_started-IsKeyed :
    (id turn_id : String) (p : CodexWorkflowProjection)
    → IsKeyed p
    → IsKeyed (observe_turn_started id turn_id p).1
unfolding observe_turn_started start_intent
observe_turn_started-IsKeyed id turn_id p k = intent_cases IsKeyed id p _ k λ i _.
    if_cases IsKeyed (is_blank turn_id || is_blank i.scope.thread_id) _ _ (λ _. k)
      λ _.
        if_cases IsKeyed (same_state i.state started && i.turn_id == some turn_id) _ _
          (λ _. settle-IsKeyed id _ p k)
          λ _.
            if_cases IsKeyed (not (may_start i.state)) _ _ (λ _. k)
              λ _. settle-IsKeyed id _ _ (put-IsKeyed _ id p k)

finish_all-IsKeyed :
    (ids : List String) (status : TurnTerminalStatus) (p : CodexWorkflowProjection)
    → IsKeyed p
    → IsKeyed (finish_all ids status p).1
unfolding finish_all
finish_all-IsKeyed [] status p k = k
finish_all-IsKeyed (id ∷ ids) status p k =
    finish_all-IsKeyed ids status (finish_prompt id status p).1
      (finish_prompt-IsKeyed id status p k)

observe_turn_completed-IsKeyed :
    (thread_id turn_id : String) (status : TurnTerminalStatus) (p : CodexWorkflowProjection)
    → IsKeyed p
    → IsKeyed (observe_turn_completed thread_id turn_id status p).1
unfolding observe_turn_completed
observe_turn_completed-IsKeyed thread_id turn_id status p k = ground (
  arith,
  finish_all-IsKeyed (affected_keys thread_id turn_id p.intents.entries) status
      (record p { terminal_turns = insert (thread_id, turn_id) status p.terminal_turns }) k,
)

-- `observe_connection` leaves the intents, or puts those being sent in doubt.
pub observe_connection-intents :
    (generation : ℕ) (connected : Bool) (p : CodexWorkflowProjection)
    → ((observe_connection generation connected p).1.intents ≡ p.intents)
      ⊎ ((observe_connection generation connected p).1.intents ≡ map_values doubt p.intents)
unfolding observe_connection
observe_connection-intents generation connected p = ground arith

observe_connection-IsKeyed :
    (generation : ℕ) (connected : Bool) (p : CodexWorkflowProjection)
    → IsKeyed p
    → IsKeyed (observe_connection generation connected p).1
observe_connection-IsKeyed generation connected p k =
    elim (observe_connection-intents generation connected p) [
      | inl e ↦ rw e k
      | inr e ↦ rw (e, keys-map_values doubt p.intents) k
    ]

-- The methods on plans and on server requests leave the intents alone.
pub observe_plan-intents :
    (publication : PlanPublication) (p : CodexWorkflowProjection)
    → (observe_plan publication p).1.intents ≡ p.intents
unfolding observe_plan
observe_plan-intents publication p = ground arith

pub register_server_request-intents :
    (request : PendingServerRequest) (p : CodexWorkflowProjection)
    → (register_server_request request p).1.intents ≡ p.intents
unfolding register_server_request
register_server_request-intents request p = ground arith

pub claim_server_request-intents :
    (key : String) (p : CodexWorkflowProjection)
    → (claim_server_request key p).1.intents ≡ p.intents
unfolding claim_server_request
claim_server_request-intents key p = ground arith

pub mark_server_request_responded-intents :
    (key : String) (p : CodexWorkflowProjection)
    → (mark_server_request_responded key p).1.intents ≡ p.intents
unfolding mark_server_request_responded
mark_server_request_responded-intents key p = ground arith

pub step-IsKeyed : (c : Call) (p : CodexWorkflowProjection) → IsKeyed p → IsKeyed (step c p)
unfolding step observe_server_request_resolved begin_dispatch
step-IsKeyed (connection generation connected) p k =
    observe_connection-IsKeyed generation connected p k
step-IsKeyed (create id scope) p k = create_prompt-IsKeyed id scope p k
step-IsKeyed (queue id) p k = queue_prompt-IsKeyed id p k
step-IsKeyed (choice id) p k = await_choice-IsKeyed id p k
step-IsKeyed (dispatch scope) p k = dispatch_from-IsKeyed (queue_of scope p.queues) p k
step-IsKeyed (delivery id o) p k = observe_delivery-IsKeyed id o p k
step-IsKeyed (turn_start id turn_id) p k = observe_turn_started-IsKeyed id turn_id p k
step-IsKeyed (turn_end thread_id turn_id status) p k =
    observe_turn_completed-IsKeyed thread_id turn_id status p k
step-IsKeyed (plan publication) p k = rw (observe_plan-intents publication p) k
step-IsKeyed (register request) p k = rw (register_server_request-intents request p) k
step-IsKeyed (claim key) p k = rw (claim_server_request-intents key p) k
step-IsKeyed (respond key) p k = rw (mark_server_request_responded-intents key p) k
step-IsKeyed (resolution generation request_id) p k = k

-- Where the prompts have distinct keys, they have after any history.
pub run-IsKeyed : (cs : List Call) (p : CodexWorkflowProjection) → IsKeyed p → IsKeyed (run cs p)
unfolding run
run-IsKeyed [] p k = k
run-IsKeyed (c ∷ cs) p k = run-IsKeyed cs (step c p) (step-IsKeyed c p k)

pub new-IsKeyed : IsKeyed new
unfolding new
new-IsKeyed = tt
