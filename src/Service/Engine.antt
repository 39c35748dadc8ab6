-- ===== src/Service/Engine.antt =====
-- rust/crates/engine/src/lib.rs: the Engine. The clock's moment and the next
-- identifiers of the generators are arguments.
use codex_telegram_bridge.Prelude.{
  string_ord, none, some, String, Outcome, success, failure, Option,
}
use codex_telegram_bridge.Prelude.Map.{get}
use codex_telegram_bridge.Prelude.Int.{ℤ}
use codex_telegram_bridge.Ports.{
  PortError, denied, ApprovalAvailability, gateway_available, gateway_unavailable, ApprovalDelivery,
  Done,
}
use codex_telegram_bridge.Domain.{
  DomainError, Session, new_session, ApprovalAction, send_prompt, ApprovalDecision, ApprovalRequest,
  pending_request, decide, Artifact, ScheduledCommand, DomainEvent, DomainEventKind,
  session_created, approval_requested, approval_decided, artifact_recorded,
}
use codex_telegram_bridge.Service.Store.{
  Store, insert_session, insert_approval, store_decision, insert_artifact,
}

pub data EngineError : Type 0 where
  domain_error : DomainError → EngineError
  port_error : PortError → EngineError
  missing_session missing_approval : String → EngineError

-- What is written at one moment, under the next event identifier.
pub record Moment : Type 0 where
  pub now_ms : ℤ
  pub event_id : String

unfoldable pub event : Moment → DomainEventKind → DomainEvent
event moment kind = record { id = moment.event_id; occurred_at_ms = moment.now_ms; kind = kind }

-- A port's answer, with the value that the operation gives once the port agrees.
abbrev pub port_answer :
    {A : Type 0} → A → Outcome PortError Done × Store → Outcome EngineError A × Store
port_answer a (success _, s) = (success a, s)
port_answer a (failure e, s) = (failure (port_error e), s)

unfoldable pub required_session : String → Store → Outcome EngineError Session
required_session session_id s = elim (get session_id s.sessions) [
  | none ↦ failure (missing_session session_id)
  | some session ↦ success session
]

module _ (sql_failure : PortError)
    (authorize : Session → ApprovalAction → Outcome PortError Done) where
  -- The `?` on the new session, and the write.
  unfoldable pub create_from :
      Outcome DomainError Session → Moment → Store → Outcome EngineError Session × Store
  unfolding event
  create_from (failure e) moment s = (failure (domain_error e), s)
  create_from (success session) moment s =
      port_answer session
        (insert_session sql_failure session (event moment (session_created session)) s)

  unfoldable pub create_session :
      String → String → Moment → Store → Outcome EngineError Session × Store
  unfolding create_from
  create_session title session_id moment s =
      create_from (new_session session_id title moment.now_ms) moment s

  -- The session is there and the policy allows the action.
  unfoldable pub authorized : String → ApprovalAction → Store → Outcome EngineError Done
  unfolding required_session
  authorized session_id action s = elim (required_session session_id s) [
    | failure e ↦ failure e
    | success session ↦ elim (authorize session action) [
      | failure e ↦ failure (port_error e)
      | success _ ↦ success tt
    ]
  ]

  unfoldable pub request_from :
      Outcome EngineError Done
      → ApprovalRequest
      → Moment
      → Store
      → Outcome EngineError ApprovalRequest × Store
  unfolding event
  request_from (failure e) approval moment s = (failure e, s)
  request_from (success _) approval moment s =
      port_answer approval
        (insert_approval sql_failure approval (event moment (approval_requested approval)) s)

  unfoldable pub request_approval :
      String
      → ApprovalAction
      → String
      → Moment
      → Store
      → Outcome EngineError ApprovalRequest × Store
  unfolding authorized request_from
  request_approval session_id action approval_id moment s =
      request_from (authorized session_id action s)
        (pending_request approval_id session_id action moment.now_ms) moment s

  -- A request that cannot be published stays in the store.
  unfoldable pub published :
      (ApprovalRequest → Outcome PortError ApprovalDelivery)
      → Outcome EngineError ApprovalRequest × Store
      → Outcome EngineError ApprovalRequest × Store
  published publish (failure e, s) = (failure e, s)
  published publish (success approval, s) = elim (publish approval) [
    | failure e ↦ (failure (port_error e), s)
    | success _ ↦ (success approval, s)
  ]

  unfoldable pub request_high_risk_approval :
      ApprovalAvailability
      → (ApprovalRequest → Outcome PortError ApprovalDelivery)
      → String
      → ApprovalAction
      → String
      → Moment
      → Store
      → Outcome EngineError ApprovalRequest × Store
  unfolding published request_approval
  request_high_risk_approval gateway_unavailable publish session_id action approval_id moment s =
      (failure (port_error (denied "high-risk approval gateway is unavailable")), s)
  request_high_risk_approval gateway_available publish session_id action approval_id moment s =
      published publish (request_approval session_id action approval_id moment s)

  unfoldable pub decide_from :
      Outcome DomainError ApprovalRequest
      → Moment
      → Store
      → Outcome EngineError ApprovalRequest × Store
  unfolding event
  decide_from (failure e) moment s = (failure (domain_error e), s)
  decide_from (success approval) moment s =
      port_answer approval
        (store_decision sql_failure approval (event moment (approval_decided approval)) s)

  unfoldable pub decide_row :
      String
      → Option ApprovalRequest
      → ApprovalDecision
      → Moment
      → Store
      → Outcome EngineError ApprovalRequest × Store
  unfolding decide_from
  decide_row approval_id none decision moment s = (failure (missing_approval approval_id), s)
  decide_row approval_id (some row) decision moment s =
      decide_from (decide decision moment.now_ms row) moment s

  unfoldable pub decide_approval :
      String → ApprovalDecision → Moment → Store → Outcome EngineError ApprovalRequest × Store
  unfolding decide_row
  decide_approval approval_id decision moment s =
      decide_row approval_id (get approval_id s.approvals) decision moment s

  -- `enqueue` is the scheduler's.
  unfoldable pub schedule :
      (ScheduledCommand → Outcome PortError Done)
      → ScheduledCommand
      → Store
      → Outcome EngineError Done
  unfolding authorized
  schedule enqueue command s = elim (authorized command.session_id (send_prompt command.prompt) s) [
    | failure e ↦ failure e
    | success _ ↦ elim (enqueue command) [
      | failure e ↦ failure (port_error e)
      | success _ ↦ success tt
    ]
  ]

  unfoldable pub record_from :
      Outcome EngineError Session → Artifact → Moment → Store → Outcome EngineError Done × Store
  unfolding event
  record_from (failure e) artifact moment s = (failure e, s)
  record_from (success _) artifact moment s =
      port_answer tt
        (insert_artifact sql_failure artifact (event moment (artifact_recorded artifact)) s)

  unfoldable pub record_artifact : Artifact → Moment → Store → Outcome EngineError Done × Store
  unfolding required_session record_from
  record_artifact artifact moment s =
      record_from (required_session artifact.session_id s) artifact moment s
