-- ===== src/Workflow/Reconnect.antt =====
-- What a new connection does to prompts and server requests, and what it asks the adapter to do.
use mathlib.Core.Option
use codex_telegram_bridge.Prelude.{
  ℕ, ◌≡◌, ◌≢◌, refl, inl, inr, true, false, ◌||◌, Option, none, some, String, List, [], ◌∷◌, ◌==◌,
  string_ord, nat_ord, option_ord, arith, Bool-cases, eq_iff, eq_self, Elem, Elem-append_right,
}
use codex_telegram_bridge.Prelude.Map.{
  Map, get, get_entry, insert, contains-insert, map_values, get-map_values, keys, values, seconds,
  contains, empty,
}
use codex_telegram_bridge.Workflow.Types.{
  WorkflowScope, scope_ord, PromptIntent, submitting, PendingServerRequest, CodexWorkflowEffect,
  reconcile_thread, ok, CodexWorkflowProjection,
}
use codex_telegram_bridge.Workflow.Prompts.{same_state}
use codex_telegram_bridge.Workflow.Connection.{
  is_active, retire, retire_effects, doubt, needs_reconcile, ScopeSet, intent_scopes, extend,
  reconcile_all, newer_than, reconnect, observe_connection, note_scope,
}

contains-extend :
    (s : WorkflowScope) (l : List WorkflowScope) (m : ScopeSet)
    → contains s (keys (extend l m)) ≡ (contains s l || contains s (keys m))
unfolding extend
contains-extend s [] m = refl
contains-extend s (x ∷ l) m =
    ground (arith, contains-extend s l (insert x tt m), contains-insert x s tt m)

note_scope_keep :
    (s : WorkflowScope) (i : PromptIntent) (m : ScopeSet)
    → contains s (keys m) ≡ true
    → contains s (keys (note_scope i m)) ≡ true
unfolding note_scope
note_scope_keep s i m h = ground (arith, h, contains-insert i.scope s tt m)

note_scope_hold :
    (i : PromptIntent) (m : ScopeSet)
    → needs_reconcile i.state ≡ true
    → contains i.scope (keys (note_scope i m)) ≡ true
unfolding note_scope
note_scope_hold i m n = rw n (rw (contains-insert i.scope i.scope tt m, eq_self i.scope))

intent_scopes_keep :
    (s : WorkflowScope) (l : List PromptIntent) (m : ScopeSet)
    → contains s (keys m) ≡ true
    → contains s (keys (intent_scopes l m)) ≡ true
unfolding intent_scopes
intent_scopes_keep s [] m h = h
intent_scopes_keep s (i ∷ l) m h = intent_scopes_keep s l (note_scope i m) (note_scope_keep s i m h)

intent_scopes_hold :
    (j : String) (i : PromptIntent) (es : List (String × PromptIntent)) (m : ScopeSet)
    → get_entry j es ≡ some i
    → needs_reconcile i.state ≡ true
    → contains i.scope (keys (intent_scopes (seconds es) m)) ≡ true
unfolding intent_scopes
intent_scopes_hold j i [] m e n = cc
intent_scopes_hold j i ((k, x) ∷ es) m e n = elim (Bool-cases (k == j)) [
  | inl same ↦
      let x-eq-i : x ≡ i = ground arith in
      intent_scopes_keep i.scope (seconds es) (note_scope x m) (rw x-eq-i (note_scope_hold i m n))
  | inr other ↦ intent_scopes_hold j i es (note_scope x m) (ground arith) n
]

values_hold :
    (j : String) (i : PromptIntent) (intents : Map String PromptIntent) (m : ScopeSet)
    → get j intents ≡ some i
    → needs_reconcile i.state ≡ true
    → contains i.scope (keys (intent_scopes (values intents) m)) ≡ true
unfolding get
values_hold j i intents m e n = intent_scopes_hold j i intents.entries m e n

Elem-reconcile_all :
    (s : WorkflowScope) (l : List WorkflowScope)
    → contains s l ≡ true
    → Elem (reconcile_thread s) (reconcile_all l)
Elem-reconcile_all s [] h = cc
Elem-reconcile_all s (x ∷ l) h = ground (arith, eq_iff x s, Elem-reconcile_all s l)

-- After the first healthy sight of a newer generation: no request of another generation waits for
-- an answer, no prompt is being sent, and the adapter is told to reconcile the thread of each prompt
-- that is unfinished or in doubt and of each queue.
pub record IsReconciled (generation : ℕ) (effects : List CodexWorkflowEffect)
    (q : CodexWorkflowProjection) : Type 0 where
  pub requests_current :
      (key : String) (r : PendingServerRequest)
      → get key q.pending_requests ≡ some r
      → is_active r.state ≡ true
      → r.generation ≡ generation
  pub none_submitting :
      (id : String) (i : PromptIntent)
      → get id q.intents ≡ some i
      → same_state i.state submitting ≡ false
  pub prompts_reconciled :
      (id : String) (i : PromptIntent)
      → get id q.intents ≡ some i
      → needs_reconcile i.state ≡ true
      → Elem (reconcile_thread i.scope) effects
  pub queues_reconciled :
      (scope : WorkflowScope)
      → contains scope (keys q.queues) ≡ true
      → Elem (reconcile_thread scope) effects

retired_current :
    (generation : ℕ) (o : Option PendingServerRequest) (r : PendingServerRequest)
    → Option.map (retire generation) o ≡ some r
    → is_active r.state ≡ true
    → r.generation ≡ generation
retired_current generation none r e a = cc
retired_current generation (some x) r e a = ground (arith, eq_iff x.generation generation)

doubted :
    (o : Option PromptIntent) (i : PromptIntent)
    → Option.map doubt o ≡ some i
    → same_state i.state submitting ≡ false
doubted none i e = cc
doubted (some x) i e = ground arith

reconnect-IsReconciled :
    (generation : ℕ) (p : CodexWorkflowProjection)
    → IsReconciled generation (reconnect generation p).0 (reconnect generation p).1
unfolding reconnect
reconnect-IsReconciled generation p = record {
  requests_current = λ key r e a.
      retired_current generation (get key p.pending_requests) r
        (rw (get-map_values (retire generation) key p.pending_requests) at e) a;
  none_submitting =
      λ id i e. doubted (get id p.intents) i (rw (get-map_values doubt id p.intents) at e);
  prompts_reconciled = λ id i e n. listed i.scope (
      ground (
        arith,
        values_hold id i (map_values doubt p.intents) empty e n,
        contains-extend i.scope (keys p.queues)
            (intent_scopes (values (map_values doubt p.intents)) empty),
      ));
  queues_reconciled = λ scope h. listed scope (
      ground (
        arith,
        h,
        contains-extend scope (keys p.queues)
            (intent_scopes (values (map_values doubt p.intents)) empty),
      ));
}
  where
    listed :
        (scope : WorkflowScope)
        → contains scope (
            keys
              (extend (keys p.queues) (intent_scopes (values (map_values doubt p.intents)) empty)))
          ≡ true
        → Elem (reconcile_thread scope) (reconnect generation p).0
    listed scope h =
        Elem-append_right (reconcile_thread scope)
          (retire_effects generation (values p.pending_requests)) _ (Elem-reconcile_all scope _ h)

observe_connection_new :
    (generation : ℕ) (p : CodexWorkflowProjection)
    → newer_than generation p.connection_generation ≡ none
    → p.connection_generation ≢ some generation
    → let seen = record p { connection_generation = some generation; connected = true } in
      observe_connection generation true p
      ≡ (ok (reconnect generation seen).0, (reconnect generation seen).1)
unfolding observe_connection
observe_connection_new generation p n d =
    ground (arith, eq_iff p.connection_generation (some generation))

-- The first healthy sight of a generation newer than the connection's is accepted; after it, no
-- request of another generation waits for an answer, no prompt is being sent, and the effects tell
-- the adapter to reconcile the thread of each prompt that is unfinished or in doubt and of each queue.
pub observe_connection-IsReconciled :
    (generation : ℕ) (p : CodexWorkflowProjection)
    → newer_than generation p.connection_generation ≡ none
    → p.connection_generation ≢ some generation
    → (effects : List CodexWorkflowEffect) × ((observe_connection generation true p).0 ≡ ok effects)
      × IsReconciled generation effects (observe_connection generation true p).1
      × ((observe_connection generation true p).1.connection_generation ≡ some generation)
observe_connection-IsReconciled generation p n d =
    let seen : CodexWorkflowProjection = record p {
      connection_generation = some generation;
      connected = true;
    } in
    rw (observe_connection_new generation p n d)
      ((reconnect generation seen).0, refl, reconnect-IsReconciled generation seen, kept seen)
  where
    kept :
        (q : CodexWorkflowProjection)
        → (reconnect generation q).1.connection_generation ≡ q.connection_generation
    kept q = unfold reconnect in refl

-- A newer generation that is first seen disconnected, and then healthy, does no such work: the
-- second call has no effect and only marks the projection as connected. Requests of older
-- generations stay open, and prompts that were being sent stay so.
pub observe_connection_late :
    (generation : ℕ) (p : CodexWorkflowProjection)
    → newer_than generation p.connection_generation ≡ none
    → observe_connection generation true (observe_connection generation false p).1
      ≡ (ok [], record p { connection_generation = some generation; connected = true })
unfolding observe_connection
observe_connection_late generation p n = ground (arith, eq_iff (some generation) (some generation))
