-- ===== src/Service/Store.antt =====
-- rust/crates/storage-sqlite/src/lib.rs: the tables of the engine,
-- their keys, and the ports that write and read them. A failed statement leaves no change.
use codex_telegram_bridge.Prelude.{
  Bool, true, false, not, ◌||◌, if◌then◌else◌, Option, none, some, String, ◌==◌, string_ord,
  Outcome, success, failure, ltb,
}
use codex_telegram_bridge.Prelude.Map.{Map, empty, get, insert}
use codex_telegram_bridge.Prelude.Int.{i64_max}
use Prim.Native.String.{◌++◌}
use codex_telegram_bridge.Ports.{PortError, adapter, conflict, Done}
use codex_telegram_bridge.Domain.{
  Session, SessionStatus, active, paused, closed, ApprovalRequest, ApprovalDecision, pending,
  approved, rejected, expired, is_pending, Artifact, DomainEvent,
}

pub record Store : Type 0 where
  pub sessions : Map String Session
  pub approvals : Map String ApprovalRequest
  pub artifacts : Map String Artifact
  pub domain_events : Map String DomainEvent

unfoldable pub no_rows : Store
unfolding empty
no_rows = record { sessions = empty; approvals = empty; artifacts = empty; domain_events = empty }

unfoldable pub parse_status : String → Outcome String SessionStatus
parse_status value =
    if value == "active"
    then success active
    else if value == "paused"
    then success paused
    else if value == "closed"
    then success closed
    else failure (◌++◌ "unknown session status: " value)

unfoldable pub parse_decision : String → Outcome String ApprovalDecision
parse_decision value =
    if value == "pending"
    then success pending
    else if value == "approved"
    then success approved
    else if value == "rejected"
    then success rejected
    else if value == "expired"
    then success expired
    else failure (◌++◌ "unknown approval decision: " value)

unfoldable pub no_longer_pending : ApprovalRequest → PortError
no_longer_pending approval = conflict (◌++◌ "approval " (◌++◌ approval.id " is no longer pending"))

abbrev pub is_some : {A : Type 0} → Option A → Bool
is_some none = false
is_some (some _) = true

-- `sql_failure` is what `sql_error` makes of a constraint that does not hold.
module _ (sql_failure : PortError) where
  -- The transaction commits what `s'` holds, with the event.
  unfoldable pub append_event : DomainEvent → Store → Store → Outcome PortError Done × Store
  append_event event s' s =
      if is_some (get event.id s.domain_events)
      then (failure sql_failure, s)
      else (success tt, record s' { domain_events = insert event.id event s.domain_events })

  unfoldable pub insert_session : Session → DomainEvent → Store → Outcome PortError Done × Store
  unfolding append_event
  insert_session session event s =
      if is_some (get session.id s.sessions)
      then (failure sql_failure, s)
      else append_event event (record s { sessions = insert session.id session s.sessions }) s

  -- The session is a foreign key.
  unfoldable pub insert_approval :
      ApprovalRequest → DomainEvent → Store → Outcome PortError Done × Store
  unfolding append_event
  insert_approval approval event s =
      if is_some (get approval.id s.approvals) || not (is_some (get approval.session_id s.sessions))
      then (failure sql_failure, s)
      else append_event event (record s { approvals = insert approval.id approval s.approvals }) s

  -- The update touches a pending row only, its decision and the moment.
  unfoldable pub update_decision :
      ApprovalRequest
      → DomainEvent
      → Option ApprovalRequest
      → Store
      → Outcome PortError Done × Store
  unfolding append_event
  update_decision approval event none s = (failure (no_longer_pending approval), s)
  update_decision approval event (some row) s =
      if not (is_pending row.decision)
      then (failure (no_longer_pending approval), s)
      else append_event event
          (record s {
            approvals =
                insert approval.id
                  (record row {
                    decision = approval.decision;
                    decided_at_ms = approval.decided_at_ms;
                  })
                  s.approvals;
          })
          s

  unfoldable pub store_decision :
      ApprovalRequest → DomainEvent → Store → Outcome PortError Done × Store
  unfolding update_decision
  store_decision approval event s = update_decision approval event (get approval.id s.approvals) s

  unfoldable pub insert_artifact : Artifact → DomainEvent → Store → Outcome PortError Done × Store
  unfolding append_event
  insert_artifact artifact event s =
      if ltb i64_max artifact.bytes
      then (failure (adapter "artifact byte count exceeds SQLite INTEGER"), s)
      else if is_some (get artifact.id s.artifacts)
          || not (is_some (get artifact.session_id s.sessions))
      then (failure sql_failure, s)
      else append_event event (record s { artifacts = insert artifact.id artifact s.artifacts }) s
