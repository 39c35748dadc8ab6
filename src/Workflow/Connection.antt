-- ===== src/Workflow/Connection.antt =====
-- rust/crates/engine/src/lib.rs: `observe_connection`.
use codex_telegram_bridge.Prelude.{
  ℕ, Bool, true, false, not, ◌&&◌, ◌||◌, Option, none, some, List, [], ◌∷◌, ◌++◌, ◌==◌, nat_ord,
  option_ord, if◌then◌else◌, ltb,
}
use codex_telegram_bridge.Prelude.Map.{Map, insert, empty, map_values, keys, values}
use codex_telegram_bridge.Workflow.Types.{
  WorkflowScope, scope_ord, PromptIntentState, submitting, uncertain, is_terminal, PromptIntent,
  PendingRequestState, available, claimed, responded, retired, PendingServerRequest,
  CodexWorkflowEffect, reconcile_thread, retire_server_request, stale_generation, ok, err,
  CodexWorkflowProjection, Step,
}
use codex_telegram_bridge.Workflow.Prompts.{same_state}

-- A request that still waits for an answer.
abbrev pub is_active : PendingRequestState → Bool
is_active available = true
is_active claimed = true
is_active responded = true
is_active _ = false

abbrev pub is_outdated : ℕ → PendingServerRequest → Bool
is_outdated generation request = not (request.generation == generation) && is_active request.state

abbrev pub retire : ℕ → PendingServerRequest → PendingServerRequest
retire generation request =
    if is_outdated generation request then record request { state = retired } else request

abbrev pub retire_effects : ℕ → List PendingServerRequest → List CodexWorkflowEffect
retire_effects generation [] = []
retire_effects generation (request ∷ rest) =
    let others = retire_effects generation rest in
    if is_outdated generation request
    then retire_server_request request.request_key ∷ others
    else others

-- A prompt that was being sent when the connection went is in doubt.
abbrev pub doubt : PromptIntent → PromptIntent
doubt intent =
    if same_state intent.state submitting then record intent { state = uncertain } else intent

abbrev pub needs_reconcile : PromptIntentState → Bool
needs_reconcile s = not (is_terminal s) || same_state s uncertain

-- A `BTreeSet` of scopes.
abbrev pub ScopeSet : Type 0
ScopeSet = Map WorkflowScope (Unit {0})

unfoldable pub note_scope : PromptIntent → ScopeSet → ScopeSet
note_scope intent scopes =
    if needs_reconcile intent.state then insert intent.scope tt scopes else scopes

unfoldable pub intent_scopes : List PromptIntent → ScopeSet → ScopeSet
unfolding note_scope
intent_scopes [] scopes = scopes
intent_scopes (intent ∷ rest) scopes = intent_scopes rest (note_scope intent scopes)

unfoldable pub extend : List WorkflowScope → ScopeSet → ScopeSet
extend [] scopes = scopes
extend (scope ∷ rest) scopes = extend rest (insert scope tt scopes)

abbrev pub reconcile_all : List WorkflowScope → List CodexWorkflowEffect
reconcile_all [] = []
reconcile_all (scope ∷ rest) = reconcile_thread scope ∷ reconcile_all rest

-- The connection's generation, where it is newer than the one observed.
abbrev pub newer_than : ℕ → Option ℕ → Option ℕ
newer_than generation none = none
newer_than generation (some current) = if ltb generation current then some current else none

-- The work of a new healthy generation.
unfoldable pub reconnect :
    ℕ → CodexWorkflowProjection → List CodexWorkflowEffect × CodexWorkflowProjection
unfolding intent_scopes extend empty
reconnect generation p =
    let intents = map_values doubt p.intents in
    (
      retire_effects generation (values p.pending_requests)
          ++ reconcile_all (keys (extend (keys p.queues) (intent_scopes (values intents) empty))),
      record p {
        pending_requests = map_values (retire generation) p.pending_requests;
        intents = intents;
      },
    )

unfoldable pub observe_connection :
    ℕ → Bool → CodexWorkflowProjection → Step (List CodexWorkflowEffect)
unfolding reconnect
observe_connection generation connected p =
    let seen = record p { connection_generation = some generation; connected = connected } in
    let (effects, p') = reconnect generation seen in
    elim (newer_than generation p.connection_generation) [
      | some current ↦ (err (stale_generation current generation), p)
      | none ↦
          if not connected || p.connection_generation == some generation
          then (ok [], seen)
          else (ok effects, p')
    ]
