-- ===== src/Workflow/Tests.antt =====
-- The workflow's theorems at concrete projections: one thread with one prompt, and one server
-- request.
use codex_telegram_bridge.Prelude.Int.{int_ord}
use codex_telegram_bridge.Prelude.{
  string_ord, Option, Elem, ◌≡◌, refl, ◌≢◌, arith, true, false, none, some, String, List, [], ◌∷◌,
  is_blank, is_whitespace, nat_ord, pair_ord, option_ord, list_ord,
}
use codex_telegram_bridge.Prelude.Map.{get, insert}
use codex_telegram_bridge.Workflow.Types.{
  WorkflowScope, PromptIntentState, queued, submitting, started, failed, PromptIntent,
  PendingServerRequest, approval, available, claimed, CodexWorkflowProjection, turn_completed,
  turn_failed, unknown, absent, prompt_finished, retry_queue, CodexWorkflowEffect, ok, new,
}
use codex_telegram_bridge.Workflow.Prompts.{begin_dispatch, dispatch_from, required_intent}
use codex_telegram_bridge.Workflow.Delivery.{
  observe_delivery, observe_turn_started, observe_turn_completed,
}
use codex_telegram_bridge.Workflow.Requests.{
  register_server_request, claim_server_request, mark_server_request_responded,
}
use codex_telegram_bridge.Workflow.Connection.{observe_connection}
use codex_telegram_bridge.Workflow.Machine.{
  Call, create, queue, connection, dispatch, turn_start, turn_end, step, run,
}
use codex_telegram_bridge.Workflow.Lifecycle.{Evolves}
use codex_telegram_bridge.Workflow.Lifecycle.Steps.{step-Evolves}
use codex_telegram_bridge.Workflow.Queues.{IsQueued}
use codex_telegram_bridge.Workflow.Queues.Histories.{run-new-IsQueued}
use codex_telegram_bridge.Workflow.Reconnect.{
  IsReconciled, observe_connection-IsReconciled, observe_connection_late,
}
use codex_telegram_bridge.Workflow.Spent.{run_claim_once}
use codex_telegram_bridge.Workflow.Sending.{doubt_blocks}
use codex_telegram_bridge.Workflow.Turns.{observe_turn_completed_reports, start-end_commute}

abbrev thread : WorkflowScope
thread = record { thread_id = "t1"; space_id = none; space_generation = 0 }

abbrev prompt : PromptIntentState → Option String → PromptIntent
prompt state turn_id = record {
  client_message_id = "m1";
  scope = thread;
  state = state;
  turn_id = turn_id;
}

abbrev request : PendingServerRequest
request = record {
  request_key = "k1";
  request_id = "r1";
  generation = 3;
  scope = thread;
  kind = approval;
  state = available;
}

-- One prompt in this state, at the head of its queue, and one request, under generation 3.
abbrev holding : PromptIntent → PendingServerRequest → CodexWorkflowProjection
holding i r = record {
  connection_generation = some 3;
  connected = true;
  intents = record { entries = ("m1", i) ∷ [] };
  queues = record { entries = (thread, "m1" ∷ []) ∷ [] };
  pending_requests = record { entries = ("k1", r) ∷ [] };
  terminal_turns = record { entries = [] };
  plans = record { entries = [] };
}

abbrev waiting : CodexWorkflowProjection
waiting = holding (prompt queued none) request

abbrev history : List Call
history =
    create "m1" thread
    ∷ queue "m1"
    ∷ connection 3 true
    ∷ dispatch thread
    ∷ turn_start "m1" "u1"
    ∷ turn_end "t1" "u1" turn_completed
    ∷ []

dispatches : (begin_dispatch thread waiting).0 ≡ ok (some (prompt submitting none))
unfolding begin_dispatch get dispatch_from required_intent insert
dispatches = refl

claims : (claim_server_request "k1" waiting).0 ≡ ok (record request { state = claimed })
unfolding claim_server_request get insert
claims = refl

run-new-IsQueued_example : IsQueued (run history new)
run-new-IsQueued_example = run-new-IsQueued history

step-Evolves_example :
    Evolves (get "m1" waiting.intents) (get "m1" (step (dispatch thread) waiting).intents)
step-Evolves_example = step-Evolves (dispatch thread) waiting "m1" (refl, tt)

observe_connection-IsReconciled_example :
    (effects : List CodexWorkflowEffect) × ((observe_connection 4 true waiting).0 ≡ ok effects)
    × IsReconciled 4 effects (observe_connection 4 true waiting).1
    × ((observe_connection 4 true waiting).1.connection_generation ≡ some 4)
observe_connection-IsReconciled_example =
    observe_connection-IsReconciled 4 waiting refl (λ e. ground arith)

run_claim_once_example :
    (claim_server_request "k1" (run history (claim_server_request "k1" waiting).1)).0
    ≢ ok (record request { state = claimed })
run_claim_once_example =
    run_claim_once "k1" waiting (record request { state = claimed })
      (record request { state = claimed }) history claims

responds :
    (mark_server_request_responded "k1"
      (holding (prompt queued none) (record request { state = claimed }))).0
    ≡ ok tt
unfolding mark_server_request_responded get insert
responds = refl

registers : (register_server_request request waiting).0 ≡ ok false
unfolding register_server_request get insert is_blank is_whitespace
registers = refl

abbrev sent : CodexWorkflowProjection
sent = holding (prompt submitting none) request

doubt_blocks_example :
    let q = (observe_delivery "m1" unknown sent).1 in
    let r = (observe_delivery "m1" absent q).1 in
    (begin_dispatch thread q ≡ (ok none, q))
    × ((observe_delivery "m1" absent q).0 ≡ ok (retry_queue thread ∷ []))
    × ((begin_dispatch thread r).0 ≡ ok (some (prompt submitting none)))
unfolding get
doubt_blocks_example = doubt_blocks "m1" [] (prompt submitting none) sent refl refl refl

abbrev running : CodexWorkflowProjection
running = holding (prompt started (some "u1")) request

observe_turn_completed_reports_example :
    Elem
      (prompt_finished "m1" thread "u1" turn_failed)
      (observe_turn_completed "t1" "u1" turn_failed running).0
unfolding get is_blank is_whitespace
observe_turn_completed_reports_example =
    observe_turn_completed_reports "t1" "u1" turn_failed running "m1" (prompt started (some "u1"))
      refl (refl, tt) refl refl

start-end_commute_example :
    let start_first = (observe_turn_started "m1" "u1" sent).1 in
    let end_first = (observe_turn_completed "t1" "u1" turn_failed sent).1 in
    (get "m1" (observe_turn_completed "t1" "u1" turn_failed start_first).1.intents
      ≡ some (prompt failed (some "u1")))
    × (get "m1" (observe_turn_started "m1" "u1" end_first).1.intents
        ≡ some (prompt failed (some "u1")))
unfolding get is_blank is_whitespace
start-end_commute_example =
    start-end_commute "m1" "u1" turn_failed sent (prompt submitting none) (refl, tt) refl refl refl
      refl refl refl

observe_connection_late_example :
    observe_connection 4 true (observe_connection 4 false waiting).1
    ≡ (ok [], record waiting { connection_generation = some 4; connected = true })
observe_connection_late_example = observe_connection_late 4 waiting refl
