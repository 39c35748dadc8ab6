-- ===== src/Service/Filed.antt =====
-- rust/crates/engine/src/lib.rs over the store: approvals are kept under their own identifiers.
use codex_telegram_bridge.Prelude.Int.{int_ord}
use codex_telegram_bridge.Prelude.{
  ◌≡◌, refl, arith, String, Outcome, success, failure, Option, none, some, List, [], ◌∷◌,
  string_ord, nat_ord, pair_ord, option_ord, list_ord,
}
use codex_telegram_bridge.Prelude.Map.{Map, get, insert, get-insert, get-empty}
use codex_telegram_bridge.Ports.{PortError, Done, gateway_available, gateway_unavailable}
use codex_telegram_bridge.Domain.{
  DomainError, Session, ApprovalAction, ApprovalRequest, ApprovalDecision, Artifact, DomainEvent,
  decide, new_session, pending_request,
}
use codex_telegram_bridge.Service.Store.{
  Store, no_rows, append_event, insert_session, insert_approval, update_decision, store_decision,
  insert_artifact,
}
use codex_telegram_bridge.Service.Engine.{
  EngineError, Moment, create_from, request_from, decide_from, decide_row, record_from,
  create_session, request_approval, authorized, decide_approval, record_artifact, required_session,
  event, request_high_risk_approval,
}
use codex_telegram_bridge.Service.Integrity.{
  EngineCall, call_create, call_request, call_decide, call_record, answer, perform, perform_all,
  port_keeps, forget_keeps, published_keeps, call_high_risk, call_schedule,
}
use codex_telegram_bridge.Service.Approvals.{IsFiled}

-- A row under its own identifier keeps the approvals so.
insert-IsFiled :
    (key : String) (a : ApprovalRequest) (m : Map String ApprovalRequest) (id : String)
    (row : ApprovalRequest)
    → a.id ≡ key
    → (get id m ≡ some row → row.id ≡ id)
    → get id (insert key a m) ≡ some row
    → row.id ≡ id
insert-IsFiled key a m id row e f h =
    ground (arith, get-insert key id a m, string_ord.eq_of_cmp key id, f, h)

module _ (sql_failure : PortError) where
  insert_session-IsFiled :
      (session : Session) (event : DomainEvent) (s : Store)
      → IsFiled s
      → IsFiled (insert_session sql_failure session event s).1
  unfolding IsFiled insert_session append_event
  insert_session-IsFiled session event s f id row = ground (arith, f id row)

  insert_artifact-IsFiled :
      (artifact : Artifact) (event : DomainEvent) (s : Store)
      → IsFiled s
      → IsFiled (insert_artifact sql_failure artifact event s).1
  unfolding IsFiled insert_artifact append_event
  insert_artifact-IsFiled artifact event s f id row = ground (arith, f id row)

  insert_approval-IsFiled :
      (approval : ApprovalRequest) (event : DomainEvent) (s : Store)
      → IsFiled s
      → IsFiled (insert_approval sql_failure approval event s).1
  unfolding IsFiled insert_approval append_event
  insert_approval-IsFiled approval event s f id row =
      ground
        (arith, f id row, insert-IsFiled approval.id approval s.approvals id row refl (f id row))

  update_decision-IsFiled :
      (approval : ApprovalRequest) (event : DomainEvent) (o : Option ApprovalRequest) (s : Store)
      → get approval.id s.approvals ≡ o
      → IsFiled s
      → IsFiled (update_decision sql_failure approval event o s).1
  unfolding IsFiled update_decision append_event
  update_decision-IsFiled approval event none s e f id row = f id row
  update_decision-IsFiled approval event (some r) s e f id row = ground (
    arith,
    f id row,
    insert-IsFiled approval.id
        (record r { decision = approval.decision; decided_at_ms = approval.decided_at_ms })
        s.approvals id row (f approval.id r e) (f id row),
  )

  module _ (authorize : Session → ApprovalAction → Outcome PortError Done) where
    create_from-IsFiled :
        (o : Outcome DomainError Session) (moment : Moment) (s : Store)
        → IsFiled s
        → IsFiled (create_from sql_failure authorize o moment s).1
    unfolding create_from
    create_from-IsFiled (failure e) moment s f = f
    create_from-IsFiled (success session) moment s f =
        rw port_keeps (insert_session-IsFiled session _ s f)

    request_from-IsFiled :
        (o : Outcome EngineError Done) (approval : ApprovalRequest) (moment : Moment) (s : Store)
        → IsFiled s
        → IsFiled (request_from sql_failure authorize o approval moment s).1
    unfolding request_from
    request_from-IsFiled (failure e) approval moment s f = f
    request_from-IsFiled (success _) approval moment s f =
        rw port_keeps (insert_approval-IsFiled approval _ s f)

    decide_from-IsFiled :
        (o : Outcome DomainError ApprovalRequest) (moment : Moment) (s : Store)
        → IsFiled s
        → IsFiled (decide_from sql_failure authorize o moment s).1
    unfolding decide_from store_decision
    decide_from-IsFiled (failure e) moment s f = f
    decide_from-IsFiled (success approval) moment s f =
        rw port_keeps (update_decision-IsFiled approval _ _ s refl f)

    decide_row-IsFiled :
        (id : String) (o : Option ApprovalRequest) (d : ApprovalDecision) (moment : Moment)
        (s : Store)
        → IsFiled s
        → IsFiled (decide_row sql_failure authorize id o d moment s).1
    unfolding decide_row
    decide_row-IsFiled id none d moment s f = f
    decide_row-IsFiled id (some row) d moment s f =
        decide_from-IsFiled (decide d moment.now_ms row) moment s f

    record_from-IsFiled :
        (o : Outcome EngineError Session) (artifact : Artifact) (moment : Moment) (s : Store)
        → IsFiled s
        → IsFiled (record_from sql_failure authorize o artifact moment s).1
    unfolding record_from
    record_from-IsFiled (failure e) artifact moment s f = f
    record_from-IsFiled (success _) artifact moment s f =
        rw port_keeps (insert_artifact-IsFiled artifact _ s f)

    perform-IsFiled :
        (c : EngineCall) (s : Store) → IsFiled s → IsFiled (perform sql_failure authorize c s)
    unfolding perform answer create_session request_approval decide_approval record_artifact
        request_high_risk_approval
    perform-IsFiled (call_create title session_id moment) s f =
        rw forget_keeps
          (create_from-IsFiled (new_session session_id title moment.now_ms) moment s f)
    perform-IsFiled (call_request session_id action approval_id moment) s f = rw forget_keeps (
        request_from-IsFiled (authorized sql_failure authorize session_id action s)
          (pending_request approval_id session_id action moment.now_ms) moment s f)
    perform-IsFiled (call_decide approval_id decision moment) s f =
        rw forget_keeps
          (decide_row-IsFiled approval_id (get approval_id s.approvals) decision moment s f)
    perform-IsFiled (call_record artifact moment) s f =
        record_from-IsFiled (required_session artifact.session_id s) artifact moment s f
    perform-IsFiled
          (call_high_risk gateway_unavailable publish session_id action approval_id moment) s f =
        f
    perform-IsFiled (call_high_risk gateway_available publish session_id action approval_id moment)
          s f =
        rw (forget_keeps, published_keeps)
          (request_from-IsFiled (authorized sql_failure authorize session_id action s)
            (pending_request approval_id session_id action moment.now_ms) moment s f)
    perform-IsFiled (call_schedule enqueue command) s f = f

    run-IsFiled :
        (cs : List EngineCall) (s : Store)
        → IsFiled s
        → IsFiled (perform_all sql_failure authorize cs s)
    unfolding perform_all
    run-IsFiled [] s f = f
    run-IsFiled (c ∷ cs) s f =
        run-IsFiled cs (perform sql_failure authorize c s) (perform-IsFiled c s f)

    -- After any operations on a store without rows every approval is kept under its own identifier.
    pub perform_all-IsFiled :
        (cs : List EngineCall) → IsFiled (perform_all sql_failure authorize cs no_rows)
    unfolding IsFiled no_rows
    perform_all-IsFiled cs =
        run-IsFiled cs no_rows (λ id row h. ground (arith, h, get-empty {V = ApprovalRequest} id))
