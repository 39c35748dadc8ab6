-- ===== src/Workflow/Requests.antt =====
-- rust/crates/engine/src/lib.rs: interactive server requests and plan publications.
use codex_telegram_bridge.Prelude.{
  ℕ, Bool, true, false, not, ◌&&◌, ◌||◌, Option, none, some, String, List, [], ◌∷◌, ◌==◌,
  string_ord, nat_ord, pair_ord, if◌then◌else◌, is_blank,
}
use codex_telegram_bridge.Prelude.Map.{get, insert, map_values, values}
use codex_telegram_bridge.Workflow.Types.{
  scope_ord, PendingRequestKind, user_input, approval, PendingRequestState, available, claimed,
  responded, resolved, retired, PendingServerRequest, PlanPublication, CodexWorkflowEffect,
  server_request_resolved, publish_plan, stale_generation, intent_collision, unknown_server_request,
  server_request_unavailable, invalid_plan_publication, ok, err, CodexWorkflowProjection, Step,
}
use codex_telegram_bridge.Workflow.Prompts.{validate_scope}

-- `==` on kinds and on states.
abbrev pub same_kind : PendingRequestKind → PendingRequestKind → Bool
same_kind user_input user_input = true
same_kind approval approval = true
same_kind _ _ = false

abbrev pub same_request_state : PendingRequestState → PendingRequestState → Bool
same_request_state available available = true
same_request_state claimed claimed = true
same_request_state responded responded = true
same_request_state resolved resolved = true
same_request_state retired retired = true
same_request_state _ _ = false

abbrev pub put_request :
    PendingServerRequest → String → CodexWorkflowProjection → CodexWorkflowProjection
put_request request key p = record p { pending_requests = insert key request p.pending_requests }

-- A second registration of the same request is no news.
abbrev pub is_same_request : PendingServerRequest → PendingServerRequest → Bool
is_same_request a b =
    a.request_id == b.request_id
    && a.generation == b.generation
    && a.scope == b.scope
    && same_kind a.kind b.kind

-- The registration on the connection's current generation.
unfoldable pub register_current : PendingServerRequest → CodexWorkflowProjection → Step Bool
register_current request p =
    if is_blank request.request_key
    then (err (unknown_server_request ""), p)
    else elim (get request.request_key p.pending_requests) [
      | some existing ↦
          if is_same_request existing request
          then (ok false, p)
          else (err (intent_collision request.request_key), p)
      | none ↦ (ok true, put_request (record request { state = available }) request.request_key p)
    ]

unfoldable pub register_server_request : PendingServerRequest → CodexWorkflowProjection → Step Bool
unfolding validate_scope register_current
register_server_request request p = elim (validate_scope request.scope) [
  | err e ↦ (err e, p)
  | ok _ ↦ elim p.connection_generation [
    | none ↦ (err (stale_generation 0 request.generation), p)
    | some current ↦
        if not (current == request.generation) || not p.connected
        then (err (stale_generation current request.generation), p)
        else register_current request p
  ]
]

-- `unwrap_or_default`.
abbrev pub generation_or_zero : Option ℕ → ℕ
generation_or_zero none = 0
generation_or_zero (some generation) = generation

-- A claim on a stale connection retires the request and fails.
unfoldable pub claim_server_request : String → CodexWorkflowProjection → Step PendingServerRequest
claim_server_request key p =
    let current = generation_or_zero p.connection_generation in
    elim (get key p.pending_requests) [
      | none ↦ (err (unknown_server_request key), p)
      | some request ↦
          if not p.connected || not (request.generation == current)
          then (
            err (stale_generation current request.generation),
            put_request (record request { state = retired }) key p,
          )
          else if same_request_state request.state available
          then (
            ok (record request { state = claimed }),
            put_request (record request { state = claimed }) key p,
          )
          else (err (server_request_unavailable key), p)
    ]

unfoldable pub mark_server_request_responded : String → CodexWorkflowProjection → Step (Unit {0})
mark_server_request_responded key p = elim (get key p.pending_requests) [
  | none ↦ (err (unknown_server_request key), p)
  | some request ↦
      if same_request_state request.state claimed
      then (ok tt, put_request (record request { state = responded }) key p)
      else (err (server_request_unavailable key), p)
]

abbrev pub is_resolved_by : ℕ → String → PendingServerRequest → Bool
is_resolved_by generation request_id request =
    request.generation == generation
    && request.request_id == request_id
    && not (same_request_state request.state resolved)

abbrev pub resolve : ℕ → String → PendingServerRequest → PendingServerRequest
resolve generation request_id request =
    if is_resolved_by generation request_id request
    then record request { state = resolved }
    else request

abbrev pub resolved_effects : ℕ → String → List PendingServerRequest → List CodexWorkflowEffect
resolved_effects generation request_id [] = []
resolved_effects generation request_id (request ∷ rest) =
    let others = resolved_effects generation request_id rest in
    if is_resolved_by generation request_id request
    then server_request_resolved request.request_key ∷ others
    else others

unfoldable pub observe_server_request_resolved :
    ℕ → String → CodexWorkflowProjection → List CodexWorkflowEffect × CodexWorkflowProjection
observe_server_request_resolved generation request_id p = (
  resolved_effects generation request_id (values p.pending_requests),
  record p { pending_requests = map_values (resolve generation request_id) p.pending_requests },
)

-- Is the published plan of this key the same revision?
abbrev pub is_published : Option PlanPublication → String → Bool
is_published none revision_key = false
is_published (some existing) revision_key = existing.revision_key == revision_key

unfoldable pub observe_plan :
    PlanPublication → CodexWorkflowProjection → Step (List CodexWorkflowEffect)
unfolding validate_scope
observe_plan publication p = elim (validate_scope publication.scope) [
  | err e ↦ (err e, p)
  | ok _ ↦
      if is_blank publication.item_id || is_blank publication.revision_key
      then (err invalid_plan_publication, p)
      else if is_published (get (publication.scope, publication.item_id) p.plans)
          publication.revision_key
      then (ok [], p)
      else (
        ok (publish_plan publication ∷ []),
        record p { plans = insert (publication.scope, publication.item_id) publication p.plans },
      )
]
