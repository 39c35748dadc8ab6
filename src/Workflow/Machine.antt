-- ===== src/Workflow/Machine.antt =====
-- The projection driven by any sequence of calls of its methods.
use codex_telegram_bridge.Prelude.{ℕ, Bool, String, List, [], ◌∷◌}
use codex_telegram_bridge.Workflow.Types.{
  WorkflowScope, TurnTerminalStatus, DeliveryObservation, PendingServerRequest, PlanPublication,
  CodexWorkflowProjection,
}
use codex_telegram_bridge.Workflow.Prompts.{
  create_prompt, queue_prompt, await_choice, begin_dispatch,
}
use codex_telegram_bridge.Workflow.Delivery.{
  observe_delivery, observe_turn_started, observe_turn_completed,
}
use codex_telegram_bridge.Workflow.Requests.{
  register_server_request, claim_server_request, mark_server_request_responded,
  observe_server_request_resolved, observe_plan,
}
use codex_telegram_bridge.Workflow.Connection.{observe_connection}

-- The methods on `&mut self`, with their arguments.
pub data Call : Type 0 where
  connection : ℕ → Bool → Call
  create : String → WorkflowScope → Call
  queue choice : String → Call
  dispatch : WorkflowScope → Call
  delivery : String → DeliveryObservation → Call
  turn_start : String → String → Call
  turn_end : String → String → TurnTerminalStatus → Call
  plan : PlanPublication → Call
  register : PendingServerRequest → Call
  claim respond : String → Call
  resolution : ℕ → String → Call

-- The projection that a call leaves.
unfoldable pub step : Call → CodexWorkflowProjection → CodexWorkflowProjection
step (connection generation connected) p = (observe_connection generation connected p).1
step (create id scope) p = (create_prompt id scope p).1
step (queue id) p = (queue_prompt id p).1
step (choice id) p = (await_choice id p).1
step (dispatch scope) p = (begin_dispatch scope p).1
step (delivery id observation) p = (observe_delivery id observation p).1
step (turn_start id turn_id) p = (observe_turn_started id turn_id p).1
step (turn_end thread_id turn_id status) p = (observe_turn_completed thread_id turn_id status p).1
step (plan publication) p = (observe_plan publication p).1
step (register request) p = (register_server_request request p).1
step (claim key) p = (claim_server_request key p).1
step (respond key) p = (mark_server_request_responded key p).1
step (resolution generation request_id) p =
    (observe_server_request_resolved generation request_id p).1

unfoldable pub run : List Call → CodexWorkflowProjection → CodexWorkflowProjection
run [] p = p
run (c ∷ cs) p = run cs (step c p)
