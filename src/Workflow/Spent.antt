-- ===== src/Workflow/Spent.antt =====
-- A server request that has been claimed or closed is never available again.
mod Untouched
use Untouched.{
  create_prompt-requests, queue_prompt-requests, await_choice-requests, dispatch_from-requests,
  finish_prompt-requests, settle-requests, observe_intent-requests, observe_delivery-requests,
  observe_turn_started-requests, finish_all-requests, observe_turn_completed-requests,
  observe_plan-requests,
}
use mathlib.Core.Option
use codex_telegram_bridge.Prelude.{
  ℕ, ◌≡◌, ◌≢◌, refl, sym, inl, inr, ◌⊎◌, ◌∙◌, ◌&&◌, ◌||◌, is_blank, Option-cases, option_ord,
  pair_ord, Bool, true, false, not, Option, none, some, String, List, [], ◌∷◌, string_ord, arith,
  ◌==◌, if◌then◌else◌, eq_iff,
}
use codex_telegram_bridge.Prelude.Map.{
  Map, get, insert, get-insert, get-map_values, map_values, get-insert_self,
}
use codex_telegram_bridge.Workflow.Types.{
  started, present, absent, unknown, PromptIntent, PendingServerRequest, available, claimed,
  responded, resolved, retired, WorkflowScope, DeliveryObservation, TurnTerminalStatus,
  PlanPublication, ok, err, CodexWorkflowProjection,
}
use codex_telegram_bridge.Workflow.Prompts.{
  create_prompt, queue_prompt, await_choice, begin_dispatch, dispatch_from, finish_prompt, queue_of,
  same_state,
}
use codex_telegram_bridge.Workflow.Delivery.{
  may_start, is_settled, start_intent, observe_delivery, observe_intent, settle,
  observe_turn_started, observe_turn_completed, finish_all, affected_keys,
}
use codex_telegram_bridge.Workflow.Requests.{
  same_request_state, register_server_request, claim_server_request, mark_server_request_responded,
  observe_server_request_resolved, resolve, observe_plan,
}
use codex_telegram_bridge.Workflow.Connection.{retire, observe_connection}
use codex_telegram_bridge.Workflow.Answers.{claim_result, claim_leaves, claim_server_request_lem}
use codex_telegram_bridge.Workflow.Cases.{try_cases, if_cases, intent_cases, option_cases}
use codex_telegram_bridge.Workflow.Machine.{
  Call, connection, create, queue, choice, dispatch, delivery, turn_start, turn_end, plan, register,
  claim, respond, resolution, step, run,
}

-- The request is there, and has been claimed or closed.
abbrev pub is_spent : Option PendingServerRequest → Bool
is_spent none = false
is_spent (some r) = not (same_request_state r.state available)

claim_leaves_spent :
    (p : CodexWorkflowProjection) (o : Option PendingServerRequest)
    → is_spent o ≡ true
    → is_spent (claim_leaves p o) ≡ true
claim_leaves_spent p none h = h
claim_leaves_spent p (some r) h = ground arith

mapped_spent :
    (f : PendingServerRequest → PendingServerRequest)
    → ((r : PendingServerRequest) → is_spent (some r) ≡ true → is_spent (some (f r)) ≡ true)
    → (o : Option PendingServerRequest) → is_spent o ≡ true
    → is_spent (Option.map f o) ≡ true
mapped_spent f keep none h = h
mapped_spent f keep (some r) h = keep r h

abbrev SpentAt : String → CodexWorkflowProjection → Type 0
SpentAt key p = is_spent (get key p.pending_requests) ≡ true

claim-Spent :
    (k key : String) (p : CodexWorkflowProjection)
    → SpentAt key p
    → SpentAt key (claim_server_request k p).1
claim-Spent k key p h =
    rw ((claim_server_request_lem k key p).1)
      (ground (arith, h, claim_leaves_spent p (get key p.pending_requests)))

respond-Spent :
    (k key : String) (p : CodexWorkflowProjection)
    → SpentAt key p
    → SpentAt key (mark_server_request_responded k p).1
unfolding mark_server_request_responded
respond-Spent k key p h =
    option_cases (SpentAt key) (get k p.pending_requests) _ _ (λ _. h)
      λ r _.
        if_cases (SpentAt key) (same_request_state r.state claimed) _ _
          (λ _.
            ground (arith, h, get-insert k key (record r { state = responded }) p.pending_requests))
          (λ _. h)

register-Spent :
    (r : PendingServerRequest) (key : String) (p : CodexWorkflowProjection)
    → SpentAt key p
    → SpentAt key (register_server_request r p).1
unfolding register_server_request
register-Spent r key p h = ground (
  arith,
  h,
  get-insert r.request_key key (record r { state = available }) p.pending_requests,
  eq_iff r.request_key key,
)

resolution-Spent :
    (generation : ℕ) (request_id key : String) (p : CodexWorkflowProjection)
    → SpentAt key p
    → SpentAt key (observe_server_request_resolved generation request_id p).1
unfolding observe_server_request_resolved
resolution-Spent generation request_id key p h =
    rw (get-map_values (resolve generation request_id) key p.pending_requests) (
      mapped_spent (resolve generation request_id) (λ r s. ground arith)
        (get key p.pending_requests) h)

connection-requests :
    (generation : ℕ) (connected : Bool) (p : CodexWorkflowProjection)
    → let q = (observe_connection generation connected p).1 in
      (q.pending_requests ≡ p.pending_requests)
      ⊎ (q.pending_requests ≡ map_values (retire generation) p.pending_requests)
unfolding observe_connection
connection-requests generation connected p = ground arith

connection-Spent :
    (generation : ℕ) (connected : Bool) (key : String) (p : CodexWorkflowProjection)
    → SpentAt key p
    → SpentAt key (observe_connection generation connected p).1
connection-Spent generation connected key p h = elim (connection-requests generation connected p) [
  | inl e ↦ rw e h
  | inr e ↦
      rw (e, get-map_values (retire generation) key p.pending_requests)
        (mapped_spent (retire generation) (λ r s. ground arith) (get key p.pending_requests) h)
]

step-Spent :
    (c : Call) (key : String) (p : CodexWorkflowProjection) → SpentAt key p → SpentAt key (step c p)
unfolding step begin_dispatch
step-Spent (connection generation connected) key p h = connection-Spent generation connected key p h
step-Spent (create id scope) key p h = rw (create_prompt-requests id scope p) h
step-Spent (queue id) key p h = rw (queue_prompt-requests id p) h
step-Spent (choice id) key p h = rw (await_choice-requests id p) h
step-Spent (dispatch scope) key p h = rw (dispatch_from-requests (queue_of scope p.queues) p) h
step-Spent (delivery id o) key p h = rw (observe_delivery-requests id o p) h
step-Spent (turn_start id turn_id) key p h = rw (observe_turn_started-requests id turn_id p) h
step-Spent (turn_end thread_id turn_id status) key p h =
    rw (observe_turn_completed-requests thread_id turn_id status p) h
step-Spent (plan publication) key p h = rw (observe_plan-requests publication p) h
step-Spent (register request) key p h = register-Spent request key p h
step-Spent (claim k) key p h = claim-Spent k key p h
step-Spent (respond k) key p h = respond-Spent k key p h
step-Spent (resolution generation request_id) key p h =
    resolution-Spent generation request_id key p h

run-Spent :
    (cs : List Call) (key : String) (p : CodexWorkflowProjection)
    → SpentAt key p
    → SpentAt key (run cs p)
unfolding run
run-Spent [] key p h = h
run-Spent (c ∷ cs) key p h = run-Spent cs key (step c p) (step-Spent c key p h)

claimed_spent :
    (key : String) (p : CodexWorkflowProjection) (r : PendingServerRequest)
    → (claim_server_request key p).0 ≡ ok r
    → SpentAt key (claim_server_request key p).1
unfolding claim_server_request
claimed_spent key p r h = elim (Option-cases (get key p.pending_requests)) [
  | inl e ↦ ground arith
  | inr (x, e) ↦
      ground (arith, get-insert_self key (record x { state = claimed }) p.pending_requests)
]

spent_refused :
    (key : String) (p : CodexWorkflowProjection) (o : Option PendingServerRequest)
    (s : PendingServerRequest)
    → is_spent o ≡ true
    → claim_result p key o ≢ ok s
spent_refused key p none s h = ground arith
spent_refused key p (some r) s h = ground arith

-- A server request is claimed at most once: after a claim that succeeds, whatever calls follow, no
-- claim of the same key succeeds.
pub run_claim_once :
    (key : String) (p : CodexWorkflowProjection) (r s : PendingServerRequest) (cs : List Call)
    → (claim_server_request key p).0 ≡ ok r
    → (claim_server_request key (run cs (claim_server_request key p).1)).0 ≢ ok s
run_claim_once key p r s cs h e =
    let q = run cs (claim_server_request key p).1 in
    spent_refused key q (get key q.pending_requests) s
      (run-Spent cs key (claim_server_request key p).1 (claimed_spent key p r h))
      (sym (claim_server_request_lem key key q).0 ∙ e)
