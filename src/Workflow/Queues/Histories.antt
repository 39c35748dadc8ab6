-- ===== src/Workflow/Queues/Histories.antt =====
-- Every call, and every history of calls, keeps the queues right.
use mathlib.Core.Option
use codex_telegram_bridge.Prelude.{
  ℕ, ◌≡◌, refl, inl, inr, Bool, true, Option, none, some, String, List, [], ◌∷◌, string_ord, arith,
}
use codex_telegram_bridge.Prelude.Map.{get, get-map_values}
use codex_telegram_bridge.Workflow.Types.{
  WorkflowScope, scope_ord, PromptIntent, PlanPublication, PendingServerRequest,
  CodexWorkflowProjection, new,
}
use codex_telegram_bridge.Workflow.Prompts.{queue_of, begin_dispatch}
use codex_telegram_bridge.Workflow.Requests.{
  register_server_request, claim_server_request, mark_server_request_responded,
  observe_server_request_resolved, observe_plan,
}
use codex_telegram_bridge.Workflow.Connection.{doubt, observe_connection}
use codex_telegram_bridge.Workflow.Keyed.{
  observe_connection-intents, observe_plan-intents, register_server_request-intents,
  claim_server_request-intents, mark_server_request_responded-intents,
}
use codex_telegram_bridge.Workflow.Queues.{IsQueued, is_open_in}
use codex_telegram_bridge.Workflow.Queues.Calls.{
  create_prompt-IsQueued, queue_prompt-IsQueued, await_choice-IsQueued, dispatch_from-IsQueued,
  observe_delivery-IsQueued, observe_turn_started-IsQueued, observe_turn_completed-IsQueued,
  same-IsQueued,
}
use codex_telegram_bridge.Workflow.Machine.{
  Call, connection, create, queue, choice, dispatch, delivery, turn_start, turn_end, plan, register,
  claim, respond, resolution, step, run,
}

observe_connection-queues :
    (generation : ℕ) (connected : Bool) (p : CodexWorkflowProjection)
    → (observe_connection generation connected p).1.queues ≡ p.queues
unfolding observe_connection
observe_connection-queues generation connected p = ground arith

observe_plan-queues :
    (publication : PlanPublication) (p : CodexWorkflowProjection)
    → (observe_plan publication p).1.queues ≡ p.queues
unfolding observe_plan
observe_plan-queues publication p = ground arith

register_server_request-queues :
    (request : PendingServerRequest) (p : CodexWorkflowProjection)
    → (register_server_request request p).1.queues ≡ p.queues
unfolding register_server_request
register_server_request-queues request p = ground arith

claim_server_request-queues :
    (key : String) (p : CodexWorkflowProjection) → (claim_server_request key p).1.queues ≡ p.queues
unfolding claim_server_request
claim_server_request-queues key p = ground arith

mark_server_request_responded-queues :
    (key : String) (p : CodexWorkflowProjection)
    → (mark_server_request_responded key p).1.queues ≡ p.queues
unfolding mark_server_request_responded
mark_server_request_responded-queues key p = ground arith

doubt_open :
    (scope : WorkflowScope) (o : Option PromptIntent)
    → is_open_in scope o ≡ true
    → is_open_in scope (Option.map doubt o) ≡ true
doubt_open scope none h = h
doubt_open scope (some i) h = ground arith

observe_connection-IsQueued :
    (generation : ℕ) (connected : Bool) (p : CodexWorkflowProjection)
    → IsQueued p
    → IsQueued (observe_connection generation connected p).1
observe_connection-IsQueued generation connected p v =
    elim (observe_connection-intents generation connected p) [
      | inl e ↦ same-IsQueued p _ e (observe_connection-queues generation connected p) v
      | inr e ↦ record {
        open_at = λ s j h.
            rw (e, get-map_values doubt j p.intents)
              (doubt_open s (get j p.intents)
                (v.open_at s j (rw (observe_connection-queues generation connected p) at h)));
        distinct_at = λ s. rw (observe_connection-queues generation connected p) (v.distinct_at s);
      }
    ]

-- Where every queue holds each prompt at most once, and only prompts that exist, belong to the
-- queue's scope and are not completed, failed or cancelled, it is so after any call.
pub step-IsQueued : (c : Call) (p : CodexWorkflowProjection) → IsQueued p → IsQueued (step c p)
unfolding step begin_dispatch observe_server_request_resolved
step-IsQueued (connection generation connected) p v =
    observe_connection-IsQueued generation connected p v
step-IsQueued (create id scope) p v = create_prompt-IsQueued id scope p v
step-IsQueued (queue id) p v = queue_prompt-IsQueued id p v
step-IsQueued (choice id) p v = await_choice-IsQueued id p v
step-IsQueued (dispatch scope) p v = dispatch_from-IsQueued (queue_of scope p.queues) p v
step-IsQueued (delivery id o) p v = observe_delivery-IsQueued id o p v
step-IsQueued (turn_start id turn_id) p v = observe_turn_started-IsQueued id turn_id p v
step-IsQueued (turn_end thread_id turn_id status) p v =
    observe_turn_completed-IsQueued thread_id turn_id status p v
step-IsQueued (plan publication) p v =
    same-IsQueued p _ (observe_plan-intents publication p) (observe_plan-queues publication p) v
step-IsQueued (register request) p v =
    same-IsQueued p _ (register_server_request-intents request p)
      (register_server_request-queues request p) v
step-IsQueued (claim key) p v =
    same-IsQueued p _ (claim_server_request-intents key p) (claim_server_request-queues key p) v
step-IsQueued (respond key) p v =
    same-IsQueued p _ (mark_server_request_responded-intents key p)
      (mark_server_request_responded-queues key p) v
step-IsQueued (resolution generation request_id) p v = same-IsQueued p _ refl refl v

run-IsQueued : (cs : List Call) (p : CodexWorkflowProjection) → IsQueued p → IsQueued (run cs p)
unfolding run
run-IsQueued [] p v = v
run-IsQueued (c ∷ cs) p v = run-IsQueued cs (step c p) (step-IsQueued c p v)

new-IsQueued : IsQueued new
unfolding new get
new-IsQueued = record { open_at = λ s j h. cc; distinct_at = λ s. tt }

-- After any history of calls on a new projection every queue holds each prompt at most once, and only
-- prompts that exist, belong to the scope of the queue and are not completed, failed or cancelled.
pub run-new-IsQueued : (cs : List Call) → IsQueued (run cs new)
run-new-IsQueued cs = run-IsQueued cs new new-IsQueued
