-- ===== src/Workflow/Queues/Calls.antt =====
-- The calls on prompts keep the queues right.
use codex_telegram_bridge.Prelude.{
  ◌≡◌, refl, inl, inr, true, false, not, ◌&&◌, ◌||◌, Option, none, some, String, List, [], ◌∷◌,
  ◌==◌, string_ord, option_ord, pair_ord, arith, Bool-cases, is_blank, eq_iff, ap,
}
use codex_telegram_bridge.Prelude.Map.{get, insert, get-insert, get-insert_self, contains, Distinct}
use codex_telegram_bridge.Prelude.Distinct.{contains-append, Distinct-append}
use codex_telegram_bridge.Workflow.Types.{
  PromptIntentState, ok, WorkflowScope, scope_ord, PromptIntent, TurnTerminalStatus,
  DeliveryObservation, present, absent, unknown, submitting, queued, awaiting_choice, started,
  CodexWorkflowProjection,
}
use codex_telegram_bridge.Workflow.Prompts.{
  same_state, put_intent, transition_prompt, validate_scope, new_intent, create_prompt,
  queue_prompt, await_choice, dispatch_head, dispatch_from, enqueue, finish_prompt, queue_of,
}
use codex_telegram_bridge.Workflow.Delivery.{
  is_settled, may_start, settle, observe_intent, observe_delivery, start_intent,
  observe_turn_started, finish_all, observe_turn_completed, affected_keys, observed_state,
}
use codex_telegram_bridge.Workflow.Cases.{
  try_cases, if_cases, intent_cases, option_cases, intent_found, option_found,
}
use codex_telegram_bridge.Workflow.Queues.{
  IsQueued, is_open_in, put-IsQueued, put-IsQueuedFor, finish_turn-IsQueued, IsQueued-IsQueuedFor,
  queue_of-enqueue,
}

-- What `transition_prompt` gives is in the same scope; its state is the target.
transition_scope :
    (i k : PromptIntent) (t : PromptIntentState)
    → transition_prompt i t ≡ ok k
    → (k.scope ≡ i.scope) × (k.state ≡ t)
unfolding transition_prompt
transition_scope i k t e = ground arith

finish_prompt-IsQueued :
    (id : String) (status : TurnTerminalStatus) (p : CodexWorkflowProjection)
    → IsQueued p
    → IsQueued (finish_prompt id status p).1
unfolding finish_prompt
finish_prompt-IsQueued id status p v = intent_cases IsQueued id p _ v λ i e.
    option_cases IsQueued i.turn_id _ _ (λ _. v)
      λ turn_id _. finish_turn-IsQueued p id status i turn_id e (IsQueued-IsQueuedFor p id v)

-- A prompt is written with its turn, and finished if the turn has ended.
settle-IsQueued :
    (id : String) (terminal : Option TurnTerminalStatus) (p : CodexWorkflowProjection)
    (i k : PromptIntent) (turn_id : String)
    → get id p.intents ≡ some i
    → k.scope ≡ i.scope
    → k.turn_id ≡ some turn_id
    → (terminal ≡ none → is_settled k.state ≡ false)
    → IsQueued p
    → IsQueued (settle id terminal (put_intent k id p)).1
unfolding settle finish_prompt
settle-IsQueued id none p i k turn_id e same t u v = put-IsQueued p id i k e same (u refl) v
settle-IsQueued id (some status) p i k turn_id e same t u v =
    let e' : get id (put_intent k id p).intents ≡ some k = get-insert_self id k p.intents in
    intent_found IsQueued id (put_intent k id p) _ k e' (
      option_found IsQueued k.turn_id _ _ turn_id t (
        finish_turn-IsQueued (put_intent k id p) id status k turn_id e'
          (put-IsQueuedFor p id i k e same v)))

-- A new prompt is in no queue.
new_intent-IsQueued :
    (id : String) (scope : WorkflowScope) (p : CodexWorkflowProjection)
    → get id p.intents ≡ none
    → IsQueued p
    → IsQueued (put_intent (new_intent id scope) id p)
new_intent-IsQueued id scope p e v = record {
  open_at = λ s j h.
      ground (arith, get-insert id j (new_intent id scope) p.intents, eq_iff id j, v.open_at s j h);
  distinct_at = v.distinct_at;
}

pub create_prompt-IsQueued :
    (id : String) (scope : WorkflowScope) (p : CodexWorkflowProjection)
    → IsQueued p
    → IsQueued (create_prompt id scope p).1
unfolding create_prompt
create_prompt-IsQueued id scope p v =
    if_cases IsQueued (is_blank id) _ _ (λ _. v)
      λ _. try_cases IsQueued (validate_scope scope) p _ v λ _ _.
        option_cases IsQueued (get id p.intents) _ _ (λ e. new_intent-IsQueued id scope p e v)
          λ x _. if_cases IsQueued (x.scope == scope) _ _ (λ _. v) (λ _. v)

enqueued_open :
    (id : String) (p : CodexWorkflowProjection) (i k : PromptIntent) (s : WorkflowScope)
    (j : String)
    → get id p.intents ≡ some i
    → k.scope ≡ i.scope
    → is_settled k.state ≡ false
    → IsQueued p
    → contains j (queue_of s (enqueue k.scope id p.queues)) ≡ true
    → is_open_in s (get j (insert id k p.intents)) ≡ true
enqueued_open id p i k s j e same u v h = ground (
  arith,
  h,
  queue_of-enqueue k.scope s id p.queues,
  contains-append j id (queue_of s p.queues),
  v.open_at s j,
  get-insert id j k p.intents,
  eq_iff id j,
  ap (λ x. x == s) same,
)

enqueued-Distinct :
    (id : String) (p : CodexWorkflowProjection) (scope s : WorkflowScope)
    → IsQueued p
    → Distinct (queue_of s (enqueue scope id p.queues))
enqueued-Distinct id p scope s v =
    rw (queue_of-enqueue scope s id p.queues) (elim (Bool-cases (scope == s)) [
      | inl same ↦ rw same (elim (Bool-cases (contains id (queue_of s p.queues))) [
        | inl old ↦ rw old (v.distinct_at s)
        | inr fresh ↦ rw fresh (Distinct-append id (queue_of s p.queues) fresh (v.distinct_at s))
      ])
      | inr other ↦ rw other (v.distinct_at s)
    ])

pub queue_prompt-IsQueued :
    (id : String) (p : CodexWorkflowProjection) → IsQueued p → IsQueued (queue_prompt id p).1
unfolding queue_prompt
queue_prompt-IsQueued id p v = intent_cases IsQueued id p _ v λ i e.
    try_cases IsQueued (transition_prompt i queued) p _ v λ k t.
      let (same, state) = transition_scope i k queued t in
      record {
        open_at = λ s j. enqueued_open id p i k s j e same (ap is_settled state) v;
        distinct_at = λ s. enqueued-Distinct id p k.scope s v;
      }

pub await_choice-IsQueued :
    (id : String) (p : CodexWorkflowProjection) → IsQueued p → IsQueued (await_choice id p).1
unfolding await_choice
await_choice-IsQueued id p v = intent_cases IsQueued id p _ v λ i e.
    try_cases IsQueued (transition_prompt i awaiting_choice) p _ v λ k t.
      let (same, state) = transition_scope i k awaiting_choice t in
      put-IsQueued p id i k e same (ap is_settled state) v

pub dispatch_from-IsQueued :
    (ids : List String) (p : CodexWorkflowProjection)
    → IsQueued p
    → IsQueued (dispatch_from ids p).1
unfolding dispatch_from dispatch_head
dispatch_from-IsQueued [] p v = v
dispatch_from-IsQueued (id ∷ ids) p v = intent_cases IsQueued id p _ v λ i e.
    if_cases IsQueued (same_state i.state queued) _ _
      (λ _. try_cases IsQueued (transition_prompt i submitting) p _ v λ k t.
        let (same, state) = transition_scope i k submitting t in
        put-IsQueued p id i k e same (ap is_settled state) v)
      (λ _. v)

observe_intent-IsQueued :
    (id : String) (i : PromptIntent) (o : DeliveryObservation) (p : CodexWorkflowProjection)
    → get id p.intents ≡ some i
    → is_settled i.state ≡ false
    → IsQueued p
    → IsQueued (observe_intent id i o p).1
unfolding observe_intent
observe_intent-IsQueued id i (present turn_id terminal) p e u v =
    if_cases IsQueued (is_blank turn_id) _ _ (λ _. v)
      λ _.
        if_cases IsQueued (same_state i.state started && not (i.turn_id == some turn_id)) _ _
          (λ _. v)
          λ _.
            settle-IsQueued id terminal p i
              (record i { turn_id = some turn_id; state = observed_state terminal }) turn_id e refl
              refl (λ n. ground arith) v
observe_intent-IsQueued id i absent p e u v = put-IsQueued p id i _ e refl (ground arith) v
observe_intent-IsQueued id i unknown p e u v = put-IsQueued p id i _ e refl (ground arith) v

pub observe_delivery-IsQueued :
    (id : String) (o : DeliveryObservation) (p : CodexWorkflowProjection)
    → IsQueued p
    → IsQueued (observe_delivery id o p).1
unfolding observe_delivery
observe_delivery-IsQueued id o p v = intent_cases IsQueued id p _ v λ i e.
    if_cases IsQueued (is_settled i.state) _ _ (λ _. v) λ u. observe_intent-IsQueued id i o p e u v

pub observe_turn_started-IsQueued :
    (id turn_id : String) (p : CodexWorkflowProjection)
    → IsQueued p
    → IsQueued (observe_turn_started id turn_id p).1
unfolding observe_turn_started start_intent
observe_turn_started-IsQueued id turn_id p v = intent_cases IsQueued id p _ v λ i e.
    if_cases IsQueued (is_blank turn_id || is_blank i.scope.thread_id) _ _ (λ _. v)
      λ _.
        if_cases IsQueued (same_state i.state started && i.turn_id == some turn_id) _ _
          (λ _. settle_now (get (i.scope.thread_id, turn_id) p.terminal_turns))
          λ _.
            if_cases IsQueued (not (may_start i.state)) _ _ (λ _. v)
              λ _.
                settle-IsQueued id _ p i (record i { turn_id = some turn_id; state = started })
                  turn_id e refl refl (λ _. refl) v
  where
    settle_now : (o : Option TurnTerminalStatus) → IsQueued (settle id o p).1
    settle_now none = v
    settle_now (some status) = finish_prompt-IsQueued id status p v

finish_all-IsQueued :
    (ids : List String) (status : TurnTerminalStatus) (p : CodexWorkflowProjection)
    → IsQueued p
    → IsQueued (finish_all ids status p).1
unfolding finish_all
finish_all-IsQueued [] status p v = v
finish_all-IsQueued (id ∷ ids) status p v =
    finish_all-IsQueued ids status (finish_prompt id status p).1
      (finish_prompt-IsQueued id status p v)

pub same-IsQueued :
    (p q : CodexWorkflowProjection)
    → q.intents ≡ p.intents
    → q.queues ≡ p.queues
    → IsQueued p
    → IsQueued q
same-IsQueued p q i e v = record {
  open_at = λ s j h. rw i (v.open_at s j (rw e at h));
  distinct_at = λ s. rw e (v.distinct_at s);
}

pub observe_turn_completed-IsQueued :
    (thread_id turn_id : String) (status : TurnTerminalStatus) (p : CodexWorkflowProjection)
    → IsQueued p
    → IsQueued (observe_turn_completed thread_id turn_id status p).1
unfolding observe_turn_completed
observe_turn_completed-IsQueued thread_id turn_id status p v =
    elim (Bool-cases (is_blank thread_id || is_blank turn_id)) [
      | inl blank ↦ rw blank v
      | inr h ↦ rw h (
          finish_all-IsQueued (affected_keys thread_id turn_id p.intents.entries) status
            (record p { terminal_turns = insert (thread_id, turn_id) status p.terminal_turns })
            (same-IsQueued p _ refl refl v))
    ]
