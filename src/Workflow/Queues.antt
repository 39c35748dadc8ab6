-- ===== src/Workflow/Queues.antt =====
-- The queues hold what they should: each prompt once, in its own scope, and none that is settled.
pub mod Calls
pub mod Histories
use codex_telegram_bridge.Prelude.{
  ◌≡◌, ap, refl, inl, inr, Bool, true, false, not, ◌&&◌, ◌||◌, Option, none, some, String, List, [],
  ◌∷◌, ◌==◌, string_ord, if◌then◌else◌, arith, Option-cases, Bool-cases, eq_iff, ap, ◌++◌,
}
use codex_telegram_bridge.Prelude.Map.{Map, get, insert, get-insert, contains, Distinct}
use codex_telegram_bridge.Prelude.Distinct.{
  without, contains-append, Distinct-append, contains-without, Distinct-without,
}
use codex_telegram_bridge.Workflow.Types.{
  WorkflowScope, scope_ord, PromptIntent, TurnTerminalStatus, intent_state, CodexWorkflowProjection,
}
use codex_telegram_bridge.Workflow.Prompts.{
  put_intent, queue_of, enqueue, dequeue, finish_prompt, finish_turn,
}
use codex_telegram_bridge.Workflow.Delivery.{is_settled}
use codex_telegram_bridge.Workflow.Cases.{intent_cases, option_cases}

-- The prompt exists, belongs to the scope, and has not been completed, failed or cancelled.
abbrev pub is_open_in : WorkflowScope → Option PromptIntent → Bool
is_open_in scope none = false
is_open_in scope (some i) = i.scope == scope && not (is_settled i.state)

pub record IsQueued (p : CodexWorkflowProjection) : Type 0 where
  pub open_at :
      (scope : WorkflowScope) (id : String)
      → contains id (queue_of scope p.queues) ≡ true
      → is_open_in scope (get id p.intents) ≡ true
  pub distinct_at : (scope : WorkflowScope) → Distinct (queue_of scope p.queues)

pub queue_of-dequeue :
    (scope s : WorkflowScope) (id : String) (qs : Map WorkflowScope (List String))
    → queue_of s (dequeue scope id qs)
      ≡ (if scope == s then without id (queue_of s qs) else queue_of s qs)
unfolding dequeue
queue_of-dequeue scope s id qs = elim (Option-cases (get scope qs)) [
  | inl e ↦ ground (arith, eq_iff scope s)
  | inr (q, e) ↦ ground (arith, eq_iff scope s, get-insert scope s (without id q) qs)
]

abbrev pub appended : String → List String → List String
appended id queue = if contains id queue then queue else queue ++ id ∷ []

pub queue_of-enqueue :
    (scope s : WorkflowScope) (id : String) (qs : Map WorkflowScope (List String))
    → queue_of s (enqueue scope id qs)
      ≡ (if scope == s then appended id (queue_of s qs) else queue_of s qs)
unfolding enqueue
queue_of-enqueue scope s id qs =
    ground (arith, eq_iff scope s, get-insert scope s (appended id (queue_of scope qs)) qs)

-- An unsettled prompt is rewritten in its scope.
pub put-IsQueued :
    (p : CodexWorkflowProjection) (id : String) (i k : PromptIntent)
    → get id p.intents ≡ some i
    → k.scope ≡ i.scope
    → is_settled k.state ≡ false
    → IsQueued p
    → IsQueued (put_intent k id p)
put-IsQueued p id i k e same unsettled v = record {
  open_at = λ scope j h. ground (
    arith,
    get-insert id j k p.intents,
    eq_iff id j,
    v.open_at scope j h,
    ap (λ s. s == scope) same,
  );
  distinct_at = v.distinct_at;
}

abbrev pub is_in : WorkflowScope → Option PromptIntent → Bool
is_in scope none = false
is_in scope (some i) = i.scope == scope

-- The same, but for the prompt `id`, which may have been settled a moment ago.
pub record IsQueuedFor (id : String) (p : CodexWorkflowProjection) : Type 0 where
  pub other_at :
      (scope : WorkflowScope) (j : String)
      → contains j (queue_of scope p.queues) ≡ true
      → (id == j) ≡ false
      → is_open_in scope (get j p.intents) ≡ true
  pub this_at :
      (scope : WorkflowScope)
      → contains id (queue_of scope p.queues) ≡ true
      → is_in scope (get id p.intents) ≡ true
  pub apart_at : (scope : WorkflowScope) → Distinct (queue_of scope p.queues)

pub put-IsQueuedFor :
    (p : CodexWorkflowProjection) (id : String) (i k : PromptIntent)
    → get id p.intents ≡ some i
    → k.scope ≡ i.scope
    → IsQueued p
    → IsQueuedFor id (put_intent k id p)
put-IsQueuedFor p id i k e same v = record {
  other_at = λ scope j h n. ground (arith, get-insert id j k p.intents, v.open_at scope j h);
  this_at = λ scope h. ground (
    arith,
    get-insert id id k p.intents,
    eq_iff id id,
    v.open_at scope id h,
    ap (λ s. s == scope) same,
  );
  apart_at = v.distinct_at;
}

finished_open :
    (p : CodexWorkflowProjection) (id : String) (i k : PromptIntent) (scope : WorkflowScope)
    (j : String)
    → get id p.intents ≡ some i
    → IsQueuedFor id p
    → contains j (queue_of scope (dequeue i.scope id p.queues)) ≡ true
    → is_open_in scope (get j (insert id k p.intents)) ≡ true
finished_open p id i k scope j e v h = ground (
  arith,
  h,
  queue_of-dequeue i.scope scope id p.queues,
  contains-without j id (queue_of scope p.queues),
  v.other_at scope j,
  v.this_at scope,
  get-insert id j k p.intents,
  eq_iff id j,
  eq_iff j id,
)

finished_apart :
    (p : CodexWorkflowProjection) (id : String) (i : PromptIntent) (scope : WorkflowScope)
    → IsQueuedFor id p
    → Distinct (queue_of scope (dequeue i.scope id p.queues))
finished_apart p id i scope v =
    rw (queue_of-dequeue i.scope scope id p.queues) (elim (Bool-cases (i.scope == scope)) [
      | inl same ↦ rw same (Distinct-without id (queue_of scope p.queues) (v.apart_at scope))
      | inr other ↦ rw other (v.apart_at scope)
    ])

-- A prompt that has a turn leaves its queue as it is finished.
pub finish_turn-IsQueued :
    (p : CodexWorkflowProjection) (id : String) (status : TurnTerminalStatus) (i : PromptIntent)
    (turn_id : String)
    → get id p.intents ≡ some i
    → IsQueuedFor id p
    → IsQueued (finish_turn id status i turn_id p).1
unfolding finish_turn
finish_turn-IsQueued p id status i turn_id e v = record {
  open_at = λ scope j. finished_open p id i (record i { state = intent_state status }) scope j e v;
  distinct_at = λ scope. finished_apart p id i scope v;
}

pub IsQueued-IsQueuedFor :
    (p : CodexWorkflowProjection) (id : String) → IsQueued p → IsQueuedFor id p
IsQueued-IsQueuedFor p id v = record {
  other_at = λ scope j h n. v.open_at scope j h;
  this_at = λ scope h. ground (arith, v.open_at scope id h);
  apart_at = v.distinct_at;
}
