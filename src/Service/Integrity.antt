-- ===== src/Service/Integrity.antt =====
-- rust/crates/engine/src/lib.rs over the store: no operation leaves half of its writes, and what
-- was decided stays.
use codex_telegram_bridge.Prelude.Int.{int_ord}
use codex_telegram_bridge.Prelude.{
  ◌≡◌, refl, arith, false, String, Outcome, success, failure, Option, none, some, List, [], ◌∷◌,
  string_ord, nat_ord, pair_ord, option_ord, list_ord,
}
use codex_telegram_bridge.Prelude.Map.{get, get-insert}
use codex_telegram_bridge.Ports.{
  PortError, Done, ApprovalDelivery, gateway_available, gateway_unavailable, ApprovalAvailability,
}
use codex_telegram_bridge.Domain.{
  DomainError, Session, ApprovalAction, ApprovalRequest, ApprovalDecision, is_pending, Artifact,
  DomainEvent, decide, new_session, pending_request, ScheduledCommand,
}
use codex_telegram_bridge.Service.Store.{
  Store, append_event, insert_session, insert_approval, update_decision, store_decision,
  insert_artifact,
}
use codex_telegram_bridge.Service.Engine.{
  create_from, request_from, decide_from, decide_row, record_from, EngineError, Moment,
  create_session, request_approval, authorized, decide_approval, record_artifact, port_answer,
  required_session, event, published, schedule, request_high_risk_approval,
}

-- The operations. What a gateway and a scheduler answer comes with the call.
pub data EngineCall : Type 0 where
  -- Its texts are the title and the session.
  call_create : String → String → Moment → EngineCall
  -- Its texts are the session and the approval.
  call_request : String → ApprovalAction → String → Moment → EngineCall
  call_decide : String → ApprovalDecision → Moment → EngineCall
  call_record : Artifact → Moment → EngineCall
  -- Its texts are the session and the approval.
  call_high_risk :
      ApprovalAvailability
      → (ApprovalRequest → Outcome PortError ApprovalDelivery)
      → String
      → ApprovalAction
      → String
      → Moment
      → EngineCall
  call_schedule : (ScheduledCommand → Outcome PortError Done) → ScheduledCommand → EngineCall

abbrev pub forget : {A : Type 0} → Outcome EngineError A × Store → Outcome EngineError Done × Store
forget (success _, s) = (success tt, s)
forget (failure e, s) = (failure e, s)

pub forget_keeps : {A : Type 0} (c : Outcome EngineError A × Store) → (forget c).1 ≡ c.1
forget_keeps (success _, s) = refl
forget_keeps (failure e, s) = refl

pub published_keeps :
    (sql_failure : PortError) (authorize : Session → ApprovalAction → Outcome PortError Done)
    (publish : ApprovalRequest → Outcome PortError ApprovalDelivery)
    (c : Outcome EngineError ApprovalRequest × Store)
    → (published sql_failure authorize publish c).1 ≡ c.1
unfolding published
published_keeps sql_failure authorize publish (failure e, s) = refl
published_keeps sql_failure authorize publish (success approval, s) = ground arith

-- The decided row under this identifier.
Holds : String → ApprovalRequest → Store → Type 0
Holds id row s = (get id s.approvals ≡ some row) × (is_pending row.decision ≡ false)

-- A port's write either left everything, or left the approvals or wrote what it was to write.
pub port_keeps :
    {A : Type 0} (a : A) (c : Outcome PortError Done × Store) → (port_answer a c).1 ≡ c.1
port_keeps a (success _, s) = refl
port_keeps a (failure e, s) = refl

module _ (sql_failure : PortError) where
  insert_session-Holds :
      (session : Session) (event : DomainEvent) (id : String) (row : ApprovalRequest) (s : Store)
      → Holds id row s
      → Holds id row (insert_session sql_failure session event s).1
  unfolding Holds insert_session append_event
  insert_session-Holds session event id row s h = ground arith

  insert_artifact-Holds :
      (artifact : Artifact) (event : DomainEvent) (id : String) (row : ApprovalRequest) (s : Store)
      → Holds id row s
      → Holds id row (insert_artifact sql_failure artifact event s).1
  unfolding Holds insert_artifact append_event
  insert_artifact-Holds artifact event id row s h = ground arith

  insert_approval-Holds :
      (approval : ApprovalRequest) (event : DomainEvent) (id : String) (row : ApprovalRequest)
      (s : Store)
      → Holds id row s
      → Holds id row (insert_approval sql_failure approval event s).1
  unfolding Holds insert_approval append_event
  insert_approval-Holds approval event id row s h =
      ground
        (arith, get-insert approval.id id approval s.approvals, string_ord.eq_of_cmp approval.id id)

  update_decision-Holds :
      (approval : ApprovalRequest) (event : DomainEvent) (id : String) (row : ApprovalRequest)
      (o : Option ApprovalRequest) (s : Store)
      → get approval.id s.approvals ≡ o
      → Holds id row s
      → Holds id row (update_decision sql_failure approval event o s).1
  unfolding Holds update_decision append_event
  update_decision-Holds approval event id row none s e h = h
  update_decision-Holds approval event id row (some r) s e h = ground (
    arith,
    get-insert approval.id id
        (record r { decision = approval.decision; decided_at_ms = approval.decided_at_ms })
        s.approvals,
    string_ord.eq_of_cmp approval.id id,
  )

  module _ (authorize : Session → ApprovalAction → Outcome PortError Done) where
    -- The answer, without its value, and the store that the call leaves.
    unfoldable pub answer : EngineCall → Store → Outcome EngineError Done × Store
    answer (call_create title session_id moment) s =
        forget (create_session sql_failure authorize title session_id moment s)
    answer (call_request session_id action approval_id moment) s =
        forget (request_approval sql_failure authorize session_id action approval_id moment s)
    answer (call_decide approval_id decision moment) s =
        forget (decide_approval sql_failure authorize approval_id decision moment s)
    answer (call_record artifact moment) s = record_artifact sql_failure authorize artifact moment s
    answer (call_high_risk availability publish session_id action approval_id moment) s = forget (
        request_high_risk_approval sql_failure authorize availability publish session_id action
          approval_id moment s)
    answer (call_schedule enqueue command) s = (schedule sql_failure authorize enqueue command s, s)

    unfoldable pub perform : EngineCall → Store → Store
    unfolding answer
    perform c s = (answer c s).1

    unfoldable pub perform_all : List EngineCall → Store → Store
    unfolding perform
    perform_all [] s = s
    perform_all (c ∷ cs) s = perform_all cs (perform c s)

    create_from-Holds :
        (o : Outcome DomainError Session) (moment : Moment) (id : String) (row : ApprovalRequest)
        (s : Store)
        → Holds id row s
        → Holds id row (create_from sql_failure authorize o moment s).1
    unfolding create_from
    create_from-Holds (failure e) moment id row s h = h
    create_from-Holds (success session) moment id row s h =
        rw port_keeps (insert_session-Holds session _ id row s h)

    request_from-Holds :
        (o : Outcome EngineError Done) (approval : ApprovalRequest) (moment : Moment) (id : String)
        (row : ApprovalRequest) (s : Store)
        → Holds id row s
        → Holds id row (request_from sql_failure authorize o approval moment s).1
    unfolding request_from
    request_from-Holds (failure e) approval moment id row s h = h
    request_from-Holds (success _) approval moment id row s h =
        rw port_keeps (insert_approval-Holds approval _ id row s h)

    decide_row-Holds :
        (key : String) (o : Option ApprovalRequest) (decision : ApprovalDecision) (moment : Moment)
        (id : String) (row : ApprovalRequest) (s : Store)
        → Holds id row s
        → Holds id row (decide_row sql_failure authorize key o decision moment s).1
    unfolding decide_row decide_from store_decision
    decide_row-Holds key none decision moment id row s h = h
    decide_row-Holds key (some r) decision moment id row s h =
        decide_from-Holds (decide decision moment.now_ms r)
      where
        decide_from-Holds :
            (o : Outcome DomainError ApprovalRequest)
            → Holds id row (decide_from sql_failure authorize o moment s).1
        decide_from-Holds (failure e) = h
        decide_from-Holds (success approval) =
            rw port_keeps (update_decision-Holds approval _ id row _ s refl h)

    record_from-Holds :
        (o : Outcome EngineError Session) (artifact : Artifact) (moment : Moment) (id : String)
        (row : ApprovalRequest) (s : Store)
        → Holds id row s
        → Holds id row (record_from sql_failure authorize o artifact moment s).1
    unfolding record_from
    record_from-Holds (failure e) artifact moment id row s h = h
    record_from-Holds (success _) artifact moment id row s h =
        rw port_keeps (insert_artifact-Holds artifact _ id row s h)

    perform-Holds :
        (c : EngineCall) (id : String) (row : ApprovalRequest) (s : Store)
        → Holds id row s
        → Holds id row (perform c s)
    unfolding perform answer create_session request_approval decide_approval record_artifact
        request_high_risk_approval
    perform-Holds (call_create title session_id moment) id row s h =
        rw forget_keeps
          (create_from-Holds (new_session session_id title moment.now_ms) moment id row s h)
    perform-Holds (call_request session_id action approval_id moment) id row s h = rw forget_keeps (
        request_from-Holds (authorized sql_failure authorize session_id action s)
          (pending_request approval_id session_id action moment.now_ms) moment id row s h)
    perform-Holds (call_decide approval_id decision moment) id row s h =
        rw forget_keeps
          (decide_row-Holds approval_id (get approval_id s.approvals) decision moment id row s h)
    perform-Holds (call_record artifact moment) id row s h =
        record_from-Holds (required_session artifact.session_id s) artifact moment id row s h
    perform-Holds (call_high_risk gateway_unavailable publish session_id action approval_id moment)
          id row s h =
        h
    perform-Holds (call_high_risk gateway_available publish session_id action approval_id moment) id
          row s h =
        rw (forget_keeps, published_keeps)
          (request_from-Holds (authorized sql_failure authorize session_id action s)
            (pending_request approval_id session_id action moment.now_ms) moment id row s h)
    perform-Holds (call_schedule enqueue command) id row s h = h

    -- A decision is final: an approval that was approved, rejected or has expired stays as it is,
    -- whatever operations follow.
    pub perform_all-final :
        (cs : List EngineCall) (id : String) (row : ApprovalRequest) (s : Store)
        → get id s.approvals ≡ some row
        → is_pending row.decision ≡ false
        → get id (perform_all cs s).approvals ≡ some row
    unfolding perform_all Holds
    perform_all-final [] id row s h p = h
    perform_all-final (c ∷ cs) id row s h p =
        let kept = perform-Holds c id row s (h, p) in
        perform_all-final cs id row (perform c s) kept.0 p
