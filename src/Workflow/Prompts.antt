-- ===== src/Workflow/Prompts.antt =====
-- rust/crates/engine/src/lib.rs: prompts are created, queued and sent.
use codex_telegram_bridge.Prelude.{
  Bool, true, false, not, Option, none, some, String, List, [], ◌∷◌, ◌++◌, ◌==◌, string_ord,
  option_ord, if◌then◌else◌, is_blank, retain,
}
use codex_telegram_bridge.Prelude.Map.{Map, get, insert, contains}
use codex_telegram_bridge.Workflow.Types.{
  WorkflowScope, scope_ord, PromptIntentState, received, awaiting_choice, queued, submitting,
  started, steered, completed, failed, uncertain, cancelled, PromptIntent, TurnTerminalStatus,
  intent_state, CodexWorkflowEffect, retry_queue, prompt_finished, empty_client_message_id,
  empty_thread_id, intent_collision, unknown_prompt, invalid_prompt_transition, Result, ok, err,
  CodexWorkflowProjection, Step,
}

-- `==` on states.
abbrev pub same_state : PromptIntentState → PromptIntentState → Bool
same_state received received = true
same_state awaiting_choice awaiting_choice = true
same_state queued queued = true
same_state submitting submitting = true
same_state started started = true
same_state steered steered = true
same_state completed completed = true
same_state failed failed = true
same_state uncertain uncertain = true
same_state cancelled cancelled = true
same_state _ _ = false

abbrev pub is_valid_transition : PromptIntentState → PromptIntentState → Bool
is_valid_transition received awaiting_choice = true
is_valid_transition received queued = true
is_valid_transition received submitting = true
is_valid_transition awaiting_choice queued = true
is_valid_transition awaiting_choice submitting = true
is_valid_transition queued submitting = true
is_valid_transition submitting queued = true
is_valid_transition submitting started = true
is_valid_transition submitting uncertain = true
is_valid_transition started completed = true
is_valid_transition started failed = true
is_valid_transition steered completed = true
is_valid_transition steered failed = true
is_valid_transition _ _ = false

unfoldable pub transition_prompt : PromptIntent → PromptIntentState → Result PromptIntent
transition_prompt intent target =
    if same_state intent.state target
    then ok intent
    else if is_valid_transition intent.state target
    then ok (record intent { state = target })
    else err (invalid_prompt_transition intent.state target)

unfoldable pub validate_scope : WorkflowScope → Result (Unit {0})
validate_scope scope = if is_blank scope.thread_id then err empty_thread_id else ok tt

-- `required_intent_mut`: the intent, which the caller writes back.
unfoldable pub required_intent : String → CodexWorkflowProjection → Result PromptIntent
required_intent id p = elim (get id p.intents) [ none ↦ err (unknown_prompt id) | some i ↦ ok i ]

abbrev pub put_intent : PromptIntent → String → CodexWorkflowProjection → CodexWorkflowProjection
put_intent intent id p = record p { intents = insert id intent p.intents }

abbrev pub queue_of : WorkflowScope → Map WorkflowScope (List String) → List String
queue_of scope queues = elim (get scope queues) [ none ↦ [] | some queue ↦ queue ]

unfoldable pub new_intent : String → WorkflowScope → PromptIntent
new_intent id scope = record {
  client_message_id = id;
  scope = scope;
  state = received;
  turn_id = none;
}

unfoldable pub create_prompt : String → WorkflowScope → CodexWorkflowProjection → Step PromptIntent
unfolding validate_scope new_intent
create_prompt id scope p =
    if is_blank id then (err empty_client_message_id, p) else elim (validate_scope scope) [
      | err e ↦ (err e, p)
      | ok _ ↦ elim (get id p.intents) [
        | some existing ↦
            if existing.scope == scope then (ok existing, p) else (err (intent_collision id), p)
        | none ↦ (ok (new_intent id scope), put_intent (new_intent id scope) id p)
      ]
    ]

-- `push_back`, unless the queue holds the prompt.
unfoldable pub enqueue :
    WorkflowScope → String → Map WorkflowScope (List String) → Map WorkflowScope (List String)
enqueue scope id queues =
    let queue = queue_of scope queues in
    insert scope (if contains id queue then queue else queue ++ id ∷ []) queues

unfoldable pub queue_prompt : String → CodexWorkflowProjection → Step (Unit {0})
unfolding required_intent transition_prompt enqueue
queue_prompt id p = elim (required_intent id p) [
  | err e ↦ (err e, p)
  | ok intent ↦ elim (transition_prompt intent queued) [
    | err e ↦ (err e, p)
    | ok moved ↦
        (ok tt, record (put_intent moved id p) { queues = enqueue moved.scope id p.queues })
  ]
]

unfoldable pub await_choice : String → CodexWorkflowProjection → Step (Unit {0})
unfolding required_intent transition_prompt
await_choice id p = elim (required_intent id p) [
  | err e ↦ (err e, p)
  | ok intent ↦ elim (transition_prompt intent awaiting_choice) [
    | err e ↦ (err e, p)
    | ok moved ↦ (ok tt, put_intent moved id p)
  ]
]

-- The head of the queue, once its intent is found.
unfoldable pub dispatch_head :
    String → PromptIntent → CodexWorkflowProjection → Step (Option PromptIntent)
unfolding transition_prompt
dispatch_head id intent p =
    if same_state intent.state queued
    then elim (transition_prompt intent submitting) [
      | err e ↦ (err e, p)
      | ok moved ↦ (ok (some moved), put_intent moved id p)
    ]
    else (ok none, p)

unfoldable pub dispatch_from : List String → CodexWorkflowProjection → Step (Option PromptIntent)
unfolding required_intent dispatch_head
dispatch_from [] p = (ok none, p)
dispatch_from (id ∷ _) p = elim (required_intent id p) [
  | err e ↦ (err e, p)
  | ok intent ↦ dispatch_head id intent p
]

unfoldable pub begin_dispatch : WorkflowScope → CodexWorkflowProjection → Step (Option PromptIntent)
unfolding dispatch_from
begin_dispatch scope p = dispatch_from (queue_of scope p.queues) p

-- `queues.get_mut(&scope)` and `retain`.
unfoldable pub dequeue :
    WorkflowScope → String → Map WorkflowScope (List String) → Map WorkflowScope (List String)
dequeue scope id queues = elim (get scope queues) [
  | none ↦ queues
  | some queue ↦ insert scope (retain (λ x. not (x == id)) queue) queues
]

abbrev pub retry_if_waiting : WorkflowScope → List String → List CodexWorkflowEffect
retry_if_waiting scope [] = []
retry_if_waiting scope (_ ∷ _) = retry_queue scope ∷ []

-- `finish_prompt` once the intent's turn is known.
unfoldable pub finish_turn :
    String
    → TurnTerminalStatus
    → PromptIntent
    → String
    → CodexWorkflowProjection
    → Step (List CodexWorkflowEffect)
unfolding dequeue
finish_turn id status intent turn_id p =
    let queues = dequeue intent.scope id p.queues in
    let finished = record intent { state = intent_state status } in
    (
      ok (
          prompt_finished id intent.scope turn_id status
          ∷ retry_if_waiting intent.scope (queue_of intent.scope queues)),
      record (put_intent finished id p) { queues = queues },
    )

unfoldable pub finish_prompt :
    String → TurnTerminalStatus → CodexWorkflowProjection → Step (List CodexWorkflowEffect)
unfolding required_intent finish_turn
finish_prompt id status p = elim (required_intent id p) [
  | err e ↦ (err e, p)
  | ok intent ↦ elim intent.turn_id [
    | none ↦ (err (invalid_prompt_transition intent.state (intent_state status)), p)
    | some turn_id ↦ finish_turn id status intent turn_id p
  ]
]
