-- ===== src/Workflow/Lifecycle/Steps.antt =====
-- Every call, and every history of calls, follows the lifecycle.
use mathlib.Core.Option
use codex_telegram_bridge.Prelude.{
  ℕ, ◌≡◌, ◌∙◌, inl, inr, Bool, true, Option, none, some, String, string_ord, List, [], ◌∷◌, arith,
}
use codex_telegram_bridge.Prelude.Map.{get, map_values, get-map_values}
use codex_telegram_bridge.Workflow.Types.{PromptIntent, CodexWorkflowProjection}
use codex_telegram_bridge.Workflow.Prompts.{begin_dispatch, queue_of}
use codex_telegram_bridge.Workflow.Delivery.{is_settled}
use codex_telegram_bridge.Workflow.Requests.{observe_server_request_resolved}
use codex_telegram_bridge.Workflow.Connection.{doubt, observe_connection}
use codex_telegram_bridge.Workflow.Keyed.{
  IsKeyed, step-IsKeyed, observe_connection-intents, observe_plan-intents,
  register_server_request-intents, claim_server_request-intents,
  mark_server_request_responded-intents,
}
use codex_telegram_bridge.Workflow.Lifecycle.{Moves, Evolves, Evolves-refl, EvolvesAt}
use codex_telegram_bridge.Workflow.Lifecycle.Prompting.{
  create_prompt-Evolves, queue_prompt-Evolves, await_choice-Evolves, dispatch_from-Evolves,
}
use codex_telegram_bridge.Workflow.Lifecycle.Delivering.{
  observe_delivery-Evolves, observe_turn_started-Evolves, observe_turn_completed-Evolves,
}
use codex_telegram_bridge.Workflow.Machine.{
  Call, connection, create, queue, choice, dispatch, delivery, turn_start, turn_end, plan, register,
  claim, respond, resolution, step, run,
}

doubt-Moves : (i : PromptIntent) → Moves i (doubt i)
doubt-Moves i = ground arith

map_doubt-Evolves :
    (p : CodexWorkflowProjection) (j : String)
    → Evolves (get j p.intents) (get j (map_values doubt p.intents))
map_doubt-Evolves p j = rw (get-map_values doubt j p.intents) (mapped (get j p.intents))
  where
    mapped : (o : Option PromptIntent) → Evolves o (Option.map doubt o)
    mapped none = tt
    mapped (some i) = doubt-Moves i

observe_connection-Evolves :
    (generation : ℕ) (connected : Bool) (p : CodexWorkflowProjection) (j : String)
    → EvolvesAt j p (observe_connection generation connected p).1
observe_connection-Evolves generation connected p j =
    elim (observe_connection-intents generation connected p) [
      | inl e ↦ rw e (Evolves-refl (get j p.intents))
      | inr e ↦ rw e (map_doubt-Evolves p j)
    ]

-- In a projection whose prompts have distinct keys, whatever the call, a prompt that was there is
-- there still, under its name and in its scope, its state has moved along an edge of the lifecycle
-- diagram or stayed, and it is unchanged if it was completed, failed or cancelled; a prompt that was
-- not there is absent still, or received and without a turn.
pub step-Evolves :
    (c : Call) (p : CodexWorkflowProjection) (j : String)
    → IsKeyed p
    → Evolves (get j p.intents) (get j (step c p).intents)
unfolding step begin_dispatch observe_server_request_resolved
step-Evolves (connection generation connected) p j k =
    observe_connection-Evolves generation connected p j
step-Evolves (create id scope) p j k = create_prompt-Evolves id scope p j
step-Evolves (queue id) p j k = queue_prompt-Evolves id p j
step-Evolves (choice id) p j k = await_choice-Evolves id p j
step-Evolves (dispatch scope) p j k = dispatch_from-Evolves (queue_of scope p.queues) p j
step-Evolves (delivery id o) p j k = observe_delivery-Evolves id o p j
step-Evolves (turn_start id turn_id) p j k = observe_turn_started-Evolves id turn_id p j
step-Evolves (turn_end thread_id turn_id status) p j k =
    observe_turn_completed-Evolves thread_id turn_id status p j k
step-Evolves (plan publication) p j k =
    rw (observe_plan-intents publication p) (Evolves-refl (get j p.intents))
step-Evolves (register request) p j k =
    rw (register_server_request-intents request p) (Evolves-refl (get j p.intents))
step-Evolves (claim key) p j k =
    rw (claim_server_request-intents key p) (Evolves-refl (get j p.intents))
step-Evolves (respond key) p j k =
    rw (mark_server_request_responded-intents key p) (Evolves-refl (get j p.intents))
step-Evolves (resolution generation request_id) p j k = Evolves-refl (get j p.intents)

step_settled :
    (c : Call) (p : CodexWorkflowProjection) (j : String) (i : PromptIntent)
    → IsKeyed p
    → get j p.intents ≡ some i
    → is_settled i.state ≡ true
    → get j (step c p).intents ≡ some i
step_settled c p j i k e s =
    kept (get j p.intents) (get j (step c p).intents) e (step-Evolves c p j k)
  where
    kept : (o o' : Option PromptIntent) → o ≡ some i → Evolves o o' → o' ≡ some i
    kept none none e v = cc
    kept none (some y) e v = cc
    kept (some x) none e v = absurd v
    kept (some x) (some y) e v = ground (arith, v.settled_kept)

-- Whatever the history, a prompt that is completed, failed or cancelled stays as it is, where the
-- prompts have distinct keys.
pub run_settled :
    (cs : List Call) (p : CodexWorkflowProjection) (j : String) (i : PromptIntent)
    → IsKeyed p
    → get j p.intents ≡ some i
    → is_settled i.state ≡ true
    → get j (run cs p).intents ≡ some i
unfolding run
run_settled [] p j i k e s = e
run_settled (c ∷ cs) p j i k e s =
    run_settled cs (step c p) j i (step-IsKeyed c p k) (step_settled c p j i k e s) s

-- Has a prompt of this name and scope.
abbrev pub IsKept : PromptIntent → Option PromptIntent → Type 0
IsKept i none = ⊥
IsKept i (some k) = (k.client_message_id ≡ i.client_message_id) × (k.scope ≡ i.scope)

IsKept-Evolves :
    (i : PromptIntent) (o o' : Option PromptIntent) → IsKept i o → Evolves o o' → IsKept i o'
IsKept-Evolves i none o' h v = absurd h
IsKept-Evolves i (some x) none h v = absurd v
IsKept-Evolves i (some x) (some y) h v = (v.name_kept ∙ h.0, v.scope_kept ∙ h.1)

-- Whatever the history, a prompt is never lost, renamed or moved to another scope, where the prompts
-- have distinct keys.
pub run-IsKept :
    (cs : List Call) (p : CodexWorkflowProjection) (j : String) (i : PromptIntent)
    → IsKeyed p
    → IsKept i (get j p.intents)
    → IsKept i (get j (run cs p).intents)
unfolding run
run-IsKept [] p j i k h = h
run-IsKept (c ∷ cs) p j i k h =
    run-IsKept cs (step c p) j i (step-IsKeyed c p k)
      (IsKept-Evolves i (get j p.intents) (get j (step c p).intents) h (step-Evolves c p j k))
