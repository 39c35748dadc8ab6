-- ===== src/Service/Tests.antt =====
-- The engine's theorems at a concrete store: one session and one pending approval.
use codex_telegram_bridge.Prelude.{
  ◌≡◌, ◌≢◌, refl, arith, Option, none, some, List, [], ◌∷◌, string_ord, Outcome, success, failure,
  nat_ord, pair_ord, option_ord, list_ord,
}
use codex_telegram_bridge.Prelude.Map.{get, insert}
use codex_telegram_bridge.Prelude.Int.{ℤ, pos, int_ord}
use codex_telegram_bridge.Ports.{PortError, adapter, Done, ApprovalDelivery, gateway_available}
use codex_telegram_bridge.Domain.{
  Session, active, ApprovalAction, send_prompt, ApprovalDecision, approved, rejected, pending,
  ApprovalRequest, decide,
}
use codex_telegram_bridge.Service.Store.{Store, store_decision, update_decision, append_event}
use codex_telegram_bridge.Service.Engine.{Moment, event, decide_approval, decide_row, decide_from}
use codex_telegram_bridge.Service.Integrity.{
  EngineCall, call_decide, call_request, call_create, perform_all, perform_all-final,
  call_high_risk,
}
use codex_telegram_bridge.Service.Approvals.{IsFiled, decide_once}

abbrev constraint : PortError
constraint = adapter "constraint"

abbrev allow : Session → ApprovalAction → Outcome PortError Done
allow session action = success tt

abbrev approval : ApprovalDecision → Option ℤ → ApprovalRequest
approval decision decided_at_ms = record {
  id = "a1";
  session_id = "s1";
  action = send_prompt "go";
  decision = decision;
  requested_at_ms = pos 1;
  decided_at_ms = decided_at_ms;
}

abbrev store_of : ApprovalRequest → Store
store_of a = record {
  sessions = record {
    entries =
        (
          "s1",
          record {
            id = "s1";
            title = "one";
            status = active;
            created_at_ms = pos 0;
            updated_at_ms = pos 0;
          },
        )
        ∷ [];
  };
  approvals = record { entries = ("a1", a) ∷ [] };
  artifacts = record { entries = [] };
  domain_events = record { entries = [] };
}

abbrev moment : Moment
moment = record { now_ms = pos 5; event_id = "e1" }

abbrev later : Moment
later = record { now_ms = pos 6; event_id = "e2" }

abbrev calls : List EngineCall
calls = call_create "two" "s2" later ∷ call_request "s1" (send_prompt "x") "a2" moment ∷ []

decides :
    (decide_approval constraint allow "a1" approved moment (store_of (approval pending none))).0
    ≡ success (approval approved (some (pos 5)))
unfolding decide_approval decide_row decide_from decide event store_decision update_decision
    append_event get insert
decides = refl

filed : IsFiled (store_of (approval pending none))
unfolding IsFiled get
filed id row h = ground (arith, string_ord.eq_of_cmp "a1" id)

decide_once_example :
    (decide_approval constraint allow "a1" rejected later (
      perform_all constraint allow calls
        (decide_approval constraint allow "a1" approved moment
          (store_of (approval pending none))).1)).0
    ≢ success (approval rejected (some (pos 6)))
decide_once_example =
    decide_once constraint allow "a1" approved rejected moment later
      (approval approved (some (pos 5))) (approval rejected (some (pos 6))) calls
      (store_of (approval pending none)) filed decides

perform_all-final_example :
    get "a1"
      (perform_all constraint allow
        (call_decide "a1" rejected later ∷ [])
        (store_of (approval approved (some (pos 5))))).approvals
    ≡ some (approval approved (some (pos 5)))
unfolding get
perform_all-final_example =
    perform_all-final constraint allow (call_decide "a1" rejected later ∷ []) "a1"
      (approval approved (some (pos 5))) (store_of (approval approved (some (pos 5)))) refl refl

-- The gateway takes requests, and fails to publish them.
abbrev publishes : ApprovalRequest → Outcome PortError ApprovalDelivery
publishes approval = failure (adapter "offline")

abbrev risky : EngineCall
risky = call_high_risk gateway_available publishes "s1" (send_prompt "x") "a2" moment
