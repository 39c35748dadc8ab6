-- ===== src/Workflow/Answers.antt =====
-- Server requests are claimed at most once, and only on their own connection.
use codex_telegram_bridge.Prelude.{
  ℕ, ◌≡◌, refl, Bool, false, ◌&&◌, Option, none, some, String, List, [], ◌∷◌, ◌==◌, string_ord,
  nat_ord, if◌then◌else◌, arith, eq_iff, inl, inr, Option-cases, eq_self,
}
use codex_telegram_bridge.Prelude.Map.{
  get, get-insert, get-insert_self, map_values, map_entries, seconds,
}
use codex_telegram_bridge.Workflow.Types.{
  PendingServerRequest, available, claimed, responded, retired, scope_ord,
  server_request_unavailable, stale_generation, unknown_server_request, ok, err,
  CodexWorkflowProjection, Result,
}
use codex_telegram_bridge.Workflow.Requests.{
  same_request_state, generation_or_zero, claim_server_request, mark_server_request_responded,
  register_server_request, observe_server_request_resolved, resolve, resolved_effects,
}

abbrev pub is_current : CodexWorkflowProjection → PendingServerRequest → Bool
is_current p r = p.connected && r.generation == generation_or_zero p.connection_generation

-- What a claim gives for the request that the key finds.
abbrev pub claim_result :
    CodexWorkflowProjection → String → Option PendingServerRequest → Result PendingServerRequest
claim_result p key none = err (unknown_server_request key)
claim_result p key (some r) =
    if is_current p r
    then if same_request_state r.state available
      then ok (record r { state = claimed })
      else err (server_request_unavailable key)
    else err (stale_generation (generation_or_zero p.connection_generation) r.generation)

-- What a claim leaves of the request that the key finds.
abbrev pub claim_leaves :
    CodexWorkflowProjection → Option PendingServerRequest → Option PendingServerRequest
claim_leaves p none = none
claim_leaves p (some r) =
    if is_current p r
    then if same_request_state r.state available
      then some (record r { state = claimed })
      else some r
    else some (record r { state = retired })

-- A claim succeeds just for an available request of the live connection's generation, and leaves it
-- claimed; a request of another generation, or any while the connection is down, is retired under an
-- error; a request that is not available stays under an error; other requests stay.
pub claim_server_request_lem :
    (key j : String) (p : CodexWorkflowProjection)
    → ((claim_server_request key p).0 ≡ claim_result p key (get key p.pending_requests))
      × (get j (claim_server_request key p).1.pending_requests ≡ (
          if key == j then claim_leaves p (get j p.pending_requests) else get j p.pending_requests))
unfolding claim_server_request
claim_server_request_lem key j p = elim (Option-cases (get key p.pending_requests)) [
  | inl e ↦ ground (arith, eq_iff key j)
  | inr (r, e) ↦ ground (
    arith,
    eq_iff key j,
    get-insert key j (record r { state = retired }) p.pending_requests,
    get-insert key j (record r { state = claimed }) p.pending_requests,
  )
]

-- After a claim that succeeds, a second claim of the same key on the projection it leaves fails, and
-- changes nothing.
pub claim-claim :
    (key : String) (p : CodexWorkflowProjection) (r : PendingServerRequest)
    → (claim_server_request key p).0 ≡ ok r
    → claim_server_request key (claim_server_request key p).1
      ≡ (err (server_request_unavailable key), (claim_server_request key p).1)
unfolding claim_server_request
claim-claim key p r h = elim (Option-cases (get key p.pending_requests)) [
  | inl e ↦ ground arith
  | inr (x, e) ↦
      ground (arith, get-insert_self key (record x { state = claimed }) p.pending_requests)
]

-- An answer is recorded once: after one that is accepted, a second one for the same key fails and
-- changes nothing.
pub respond-respond :
    (key : String) (p : CodexWorkflowProjection)
    → (mark_server_request_responded key p).0 ≡ ok tt
    → mark_server_request_responded key (mark_server_request_responded key p).1
      ≡ (err (server_request_unavailable key), (mark_server_request_responded key p).1)
unfolding mark_server_request_responded
respond-respond key p h = elim (Option-cases (get key p.pending_requests)) [
  | inl e ↦ ground arith
  | inr (x, e) ↦
      ground (arith, get-insert_self key (record x { state = responded }) p.pending_requests)
]

-- A request that was registered is registered again without news and without a change.
pub register-register :
    (r : PendingServerRequest) (p : CodexWorkflowProjection) (b : Bool)
    → (register_server_request r p).0 ≡ ok b
    → register_server_request r (register_server_request r p).1
      ≡ (ok false, (register_server_request r p).1)
unfolding register_server_request
register-register r p b h = elim (Option-cases (get r.request_key p.pending_requests)) [
  | inl e ↦ ground (
    arith,
    h,
    e,
    get-insert_self r.request_key (record r { state = available }) p.pending_requests,
    eq_self r.request_id,
    eq_self r.scope,
    eq_self r.generation,
  )
  | inr (x, e) ↦ ground (arith, h, e)
]

-- The resolved requests stay resolved: a second notice has no effect.
pub resolve-resolve :
    (generation : ℕ) (request_id : String) (p : CodexWorkflowProjection)
    → let q = (observe_server_request_resolved generation request_id p).1 in
      (observe_server_request_resolved generation request_id q).0 ≡ []
unfolding observe_server_request_resolved map_values
resolve-resolve generation request_id p = silent p.pending_requests.entries
  where
    silent :
        (es : List (String × PendingServerRequest))
        → resolved_effects generation request_id
            (seconds (map_entries (resolve generation request_id) es))
          ≡ []
    silent [] = refl
    silent ((k, r) ∷ es) = ground (arith, silent es)
