-- ===== src/Service/Approvals.antt =====
-- rust/crates/engine/src/lib.rs: an approval from its request to its decision.
use codex_telegram_bridge.Service.Integrity.{EngineCall, perform_all, perform_all-final, port_keeps}
use codex_telegram_bridge.Prelude.{
  sym, ◌∙◌, List, ◌≡◌, refl, false, Option, none, some, String, arith, success, string_ord, Outcome,
  ◌≢◌, failure, nat_ord, pair_ord, option_ord, list_ord,
}
use codex_telegram_bridge.Prelude.Map.{get, get-insert_self}
use codex_telegram_bridge.Prelude.Int.{ℤ, int_ord}
use codex_telegram_bridge.Ports.{Done, PortError}
use codex_telegram_bridge.Domain.{
  DomainError, ApprovalDecision, pending, approved, rejected, expired, ApprovalRequest, decide,
  is_pending, DomainEvent, status_text, decision_text, SessionStatus, active, paused, closed,
  Session, ApprovalAction, approval_decided,
}
use codex_telegram_bridge.Service.Engine.{
  decide_from, decide_row, decide_approval, port_answer, Moment, event,
}
use codex_telegram_bridge.Service.Store.{
  Store, parse_status, parse_decision, update_decision, append_event, store_decision,
}

-- The text that the store holds for a status of a session reads back as that status.
pub parse_status-status_text : (s : SessionStatus) → parse_status (status_text s) ≡ success s
unfolding parse_status status_text
parse_status-status_text active = refl
parse_status-status_text paused = refl
parse_status-status_text closed = refl

-- The text that the store holds for a decision reads back as that decision.
pub parse_decision-decision_text :
    (d : ApprovalDecision) → parse_decision (decision_text d) ≡ success d
unfolding parse_decision decision_text
parse_decision-decision_text pending = refl
parse_decision-decision_text approved = refl
parse_decision-decision_text rejected = refl
parse_decision-decision_text expired = refl

-- The approvals are kept under their own identifiers.
unfoldable pub IsFiled : Store → Type 0
IsFiled s = (id : String) (row : ApprovalRequest) → get id s.approvals ≡ some row → row.id ≡ id

decided_terminal :
    (d : ApprovalDecision) (now_ms : ℤ) (row a : ApprovalRequest)
    → decide d now_ms row ≡ success a
    → (is_pending a.decision ≡ false) × (a.id ≡ row.id)
unfolding decide
decided_terminal d now_ms row a h = ground arith

stored_terminal :
    (sql_failure : PortError) (a : ApprovalRequest) (e : DomainEvent) (o : Option ApprovalRequest)
    (s : Store)
    → is_pending a.decision ≡ false
    → (update_decision sql_failure a e o s).0 ≡ success tt
    → (row : ApprovalRequest) × (get a.id (update_decision sql_failure a e o s).1.approvals
        ≡ some row)
      × (is_pending row.decision ≡ false)
unfolding update_decision append_event
stored_terminal sql_failure a e none s p h = ground arith
stored_terminal sql_failure a e (some row) s p h = (
  record row { decision = a.decision; decided_at_ms = a.decided_at_ms },
  ground (
    arith,
    get-insert_self a.id (record row { decision = a.decision; decided_at_ms = a.decided_at_ms })
        s.approvals,
  ),
  p,
)

port_agrees :
    {A : Type 0} (b a : A) (c : Outcome PortError Done × Store)
    → (port_answer b c).0 ≡ success a
    → c.0 ≡ success tt
port_agrees b a (success _, s) h = refl
port_agrees b a (failure e, s) h = ground arith

module _ (sql_failure : PortError)
    (authorize : Session → ApprovalAction → Outcome PortError Done) where
  -- The row of this identifier is decided.
  DecidedIn : String → Store → Type 0
  DecidedIn id s =
      (row : ApprovalRequest) × (get id s.approvals ≡ some row) × (is_pending row.decision ≡ false)

  decide_from-DecidedIn :
      (o : Outcome DomainError ApprovalRequest) (moment : Moment) (a : ApprovalRequest)
      (id : String) (s : Store)
      → ((b : ApprovalRequest) → o ≡ success b → (is_pending b.decision ≡ false) × (b.id ≡ id))
      → (decide_from sql_failure authorize o moment s).0 ≡ success a
      → DecidedIn id (decide_from sql_failure authorize o moment s).1
  unfolding decide_from store_decision DecidedIn
  decide_from-DecidedIn (failure e) moment a id s d h = ground arith
  decide_from-DecidedIn (success b) moment a id s d h =
      rw (port_keeps, sym (d b refl).1)
        (stored_terminal sql_failure b (event moment (approval_decided b)) (get b.id s.approvals) s
          (d b refl).0 (port_agrees b a _ h))

  decide_row-DecidedIn :
      (id : String) (o : Option ApprovalRequest) (d : ApprovalDecision) (moment : Moment)
      (a : ApprovalRequest) (s : Store)
      → ((row : ApprovalRequest) → o ≡ some row → row.id ≡ id)
      → (decide_row sql_failure authorize id o d moment s).0 ≡ success a
      → DecidedIn id (decide_row sql_failure authorize id o d moment s).1
  unfolding decide_row
  decide_row-DecidedIn id none d moment a s f h = ground arith
  decide_row-DecidedIn id (some row) d moment a s f h =
      decide_from-DecidedIn (decide d moment.now_ms row) moment a id s
        (λ b e. let t = decided_terminal d moment.now_ms row b e in (t.0, t.1 ∙ f row refl)) h

  decided_refused :
      (id : String) (d : ApprovalDecision) (moment : Moment) (row a : ApprovalRequest) (s : Store)
      → get id s.approvals ≡ some row
      → is_pending row.decision ≡ false
      → (decide_approval sql_failure authorize id d moment s).0 ≢ success a
  unfolding decide_approval decide_row decide_from decide
  decided_refused id d moment row a s e p h = ground (arith, e)

  -- An approval is decided at most once: where the approvals are kept under their own identifiers,
  -- after a decision that succeeds, whatever operations follow, no other decision of the same
  -- approval succeeds.
  pub decide_once :
      (id : String) (d d' : ApprovalDecision) (moment moment' : Moment) (a b : ApprovalRequest)
      (cs : List EngineCall) (s : Store)
      → IsFiled s
      → (decide_approval sql_failure authorize id d moment s).0 ≡ success a
      → (decide_approval sql_failure authorize id d' moment' (
          perform_all sql_failure authorize cs
            (decide_approval sql_failure authorize id d moment s).1)).0
        ≢ success b
  unfolding IsFiled DecidedIn decide_approval
  decide_once id d d' moment moment' a b cs s f h =
      let (row, e, p) = decide_row-DecidedIn id (get id s.approvals) d moment a s (f id) h in
      decided_refused id d' moment' row b _
        (perform_all-final sql_failure authorize cs id row _ e p) p
