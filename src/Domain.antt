-- ===== src/Domain.antt =====
-- rust/crates/domain/src/lib.rs: the business entities, their checks and their events. Each
-- identifier type is its text, a timestamp an integer, a SHA-256 its code points.
use codex_telegram_bridge.Prelude.{
  ℕ, Bool, true, false, not, if◌then◌else◌, Option, none, some, String, List, map, length, ◌==◌,
  nat_ord, is_blank, codes, all, is_ascii_hexdigit, to_ascii_lowercase, Outcome, success, failure,
  ◌&&◌,
}
use codex_telegram_bridge.Prelude.Int.{ℤ}

pub data DomainError : Type 0 where
  empty_identifier : String → DomainError
  empty_title empty_artifact_path invalid_sha256 empty_prompt : DomainError
  invalid_approval_transition approval_already_decided : DomainError

-- `new` of the identifier type of this name.
unfoldable pub new_identifier : String → String → Outcome DomainError String
new_identifier name value =
    if is_blank value then failure (empty_identifier name) else success value

pub data SessionStatus : Type 0 where
  active paused closed : SessionStatus

unfoldable pub status_text : SessionStatus → String
status_text active = "active"
status_text paused = "paused"
status_text closed = "closed"

pub record Session : Type 0 where
  pub id : String
  pub title : String
  pub status : SessionStatus
  pub created_at_ms : ℤ
  pub updated_at_ms : ℤ

unfoldable pub new_session : String → String → ℤ → Outcome DomainError Session
new_session id title now_ms =
    if is_blank title
    then failure empty_title
    else success (record {
      id = id;
      title = title;
      status = active;
      created_at_ms = now_ms;
      updated_at_ms = now_ms;
    })

pub data ApprovalDecision : Type 0 where
  pending approved rejected expired : ApprovalDecision

unfoldable pub decision_text : ApprovalDecision → String
decision_text pending = "pending"
decision_text approved = "approved"
decision_text rejected = "rejected"
decision_text expired = "expired"

abbrev pub is_pending : ApprovalDecision → Bool
is_pending pending = true
is_pending _ = false

pub data ApprovalAction : Type 0 where
  execute_command send_prompt transfer_artifact : String → ApprovalAction

unfoldable pub summary : ApprovalAction → String
summary (execute_command command) = command
summary (send_prompt prompt) = prompt
summary (transfer_artifact artifact_id) = artifact_id

pub record ApprovalRequest : Type 0 where
  pub id : String
  pub session_id : String
  pub action : ApprovalAction
  pub decision : ApprovalDecision
  pub requested_at_ms : ℤ
  pub decided_at_ms : Option ℤ

unfoldable pub pending_request : String → String → ApprovalAction → ℤ → ApprovalRequest
pending_request id session_id action requested_at_ms = record {
  id = id;
  session_id = session_id;
  action = action;
  decision = pending;
  requested_at_ms = requested_at_ms;
  decided_at_ms = none;
}

-- The request that `decide` leaves, or its error with the request as it was.
unfoldable pub decide : ApprovalDecision → ℤ → ApprovalRequest → Outcome DomainError ApprovalRequest
decide decision decided_at_ms request =
    if is_pending decision
    then failure invalid_approval_transition
    else if not (is_pending request.decision)
    then failure approval_already_decided
    else success (record request { decision = decision; decided_at_ms = some decided_at_ms })

pub record Artifact : Type 0 where
  pub id : String
  pub session_id : String
  pub path : String
  pub sha256 : List ℕ
  pub bytes : ℕ
  pub created_at_ms : ℤ

-- A text of 64 ASCII hexadecimal digits has 64 bytes and 64 code points.
unfoldable pub is_sha256 : List ℕ → Bool
is_sha256 digest = length digest == 64 && all is_ascii_hexdigit digest

unfoldable pub new_artifact :
    String → String → String → String → ℕ → ℤ → Outcome DomainError Artifact
unfolding is_sha256
new_artifact id session_id path sha256 bytes created_at_ms =
    if is_blank path
    then failure empty_artifact_path
    else if not (is_sha256 (codes sha256))
    then failure invalid_sha256
    else success (record {
      id = id;
      session_id = session_id;
      path = path;
      sha256 = map to_ascii_lowercase (codes sha256);
      bytes = bytes;
      created_at_ms = created_at_ms;
    })

pub record ScheduledCommand : Type 0 where
  pub id : String
  pub session_id : String
  pub prompt : String
  pub enqueued_at_ms : ℤ

unfoldable pub new_command : String → String → String → ℤ → Outcome DomainError ScheduledCommand
new_command id session_id prompt enqueued_at_ms =
    if is_blank prompt
    then failure empty_prompt
    else success (record {
      id = id;
      session_id = session_id;
      prompt = prompt;
      enqueued_at_ms = enqueued_at_ms;
    })

pub data DomainEventKind : Type 0 where
  session_created : Session → DomainEventKind
  approval_requested approval_decided : ApprovalRequest → DomainEventKind
  artifact_recorded : Artifact → DomainEventKind
  command_scheduled : ScheduledCommand → DomainEventKind

unfoldable pub event_type : DomainEventKind → String
event_type (session_created _) = "session.created"
event_type (approval_requested _) = "approval.requested"
event_type (approval_decided _) = "approval.decided"
event_type (artifact_recorded _) = "artifact.recorded"
event_type (command_scheduled _) = "command.scheduled"

pub record DomainEvent : Type 0 where
  pub id : String
  pub occurred_at_ms : ℤ
  pub kind : DomainEventKind
