-- ===== src/Workflow/Delivery.antt =====
-- rust/crates/engine/src/lib.rs: what is learnt of a prompt's delivery and of its turn.
use codex_telegram_bridge.Prelude.{
  Bool, true, false, not, ◌&&◌, ◌||◌, Option, none, some, String, List, [], ◌∷◌, ◌++◌, ◌==◌,
  string_ord, option_ord, pair_ord, if◌then◌else◌, is_blank,
}
use codex_telegram_bridge.Prelude.Map.{get, insert}
use codex_telegram_bridge.Workflow.Types.{
  PromptIntentState, awaiting_choice, queued, submitting, started, completed, failed, uncertain,
  cancelled, is_terminal, PromptIntent, TurnTerminalStatus, intent_state, DeliveryObservation,
  present, absent, unknown, CodexWorkflowEffect, retry_queue, reconcile_thread,
  invalid_prompt_transition, Result, ok, err, CodexWorkflowProjection, Step,
}
use codex_telegram_bridge.Workflow.Prompts.{same_state, required_intent, put_intent, finish_prompt}

-- The states that no observation leaves.
abbrev pub is_settled : PromptIntentState → Bool
is_settled completed = true
is_settled failed = true
is_settled cancelled = true
is_settled _ = false

abbrev pub observed_state : Option TurnTerminalStatus → PromptIntentState
observed_state none = started
observed_state (some status) = intent_state status

-- `Absent` takes a submitted or uncertain prompt back to the queue.
abbrev pub requeued : PromptIntentState → PromptIntentState
requeued submitting = queued
requeued uncertain = queued
requeued s = s

abbrev pub made_uncertain : PromptIntentState → PromptIntentState
made_uncertain s = if is_terminal s then s else uncertain

-- The follow-up on a terminal status, once the intent is written.
unfoldable pub settle :
    String → Option TurnTerminalStatus → CodexWorkflowProjection → Step (List CodexWorkflowEffect)
settle id none p = (ok [], p)
settle id (some status) p = finish_prompt id status p

unfoldable pub observe_present :
    String
    → PromptIntent
    → String
    → Option TurnTerminalStatus
    → CodexWorkflowProjection
    → Step (List CodexWorkflowEffect)
unfolding settle
observe_present id intent turn_id terminal p =
    if is_blank turn_id
    then (err (invalid_prompt_transition intent.state started), p)
    else if same_state intent.state started && not (intent.turn_id == some turn_id)
    then (err (invalid_prompt_transition intent.state started), p)
    else settle id terminal (
        put_intent (record intent { turn_id = some turn_id; state = observed_state terminal }) id p)

unfoldable pub observe_intent :
    String
    → PromptIntent
    → DeliveryObservation
    → CodexWorkflowProjection
    → Step (List CodexWorkflowEffect)
unfolding observe_present
observe_intent id intent (present turn_id terminal) p = observe_present id intent turn_id terminal p
observe_intent id intent absent p = (
  ok (retry_queue intent.scope ∷ []),
  put_intent (record intent { state = requeued intent.state }) id p,
)
observe_intent id intent unknown p = (
  ok (reconcile_thread intent.scope ∷ []),
  put_intent (record intent { state = made_uncertain intent.state }) id p,
)

unfoldable pub observe_delivery :
    String → DeliveryObservation → CodexWorkflowProjection → Step (List CodexWorkflowEffect)
unfolding required_intent observe_intent
observe_delivery id observation p = elim (required_intent id p) [
  | err e ↦ (err e, p)
  | ok intent ↦
      if is_settled intent.state then (ok [], p) else observe_intent id intent observation p
]

abbrev pub may_start : PromptIntentState → Bool
may_start submitting = true
may_start queued = true
may_start awaiting_choice = true
may_start _ = false

-- A turn that was seen to end before it was seen to start ends the prompt at once.
unfoldable pub settle_started :
    String → String → String → CodexWorkflowProjection → Step (List CodexWorkflowEffect)
unfolding settle
settle_started id thread_id turn_id p = settle id (get (thread_id, turn_id) p.terminal_turns) p

unfoldable pub start_intent :
    String → PromptIntent → String → CodexWorkflowProjection → Step (List CodexWorkflowEffect)
unfolding settle_started
start_intent id intent turn_id p =
    if is_blank turn_id || is_blank intent.scope.thread_id
    then (err (invalid_prompt_transition intent.state started), p)
    else if same_state intent.state started && intent.turn_id == some turn_id
    then settle_started id intent.scope.thread_id turn_id p
    else if not (may_start intent.state)
    then (err (invalid_prompt_transition intent.state started), p)
    else settle_started id intent.scope.thread_id turn_id
        (put_intent (record intent { turn_id = some turn_id; state = started }) id p)

unfoldable pub observe_turn_started :
    String → String → CodexWorkflowProjection → Step (List CodexWorkflowEffect)
unfolding required_intent start_intent
observe_turn_started id turn_id p = elim (required_intent id p) [
  | err e ↦ (err e, p)
  | ok intent ↦ start_intent id intent turn_id p
]

-- The intents that a turn's end settles.
abbrev pub is_affected : String → String → PromptIntent → Bool
is_affected thread_id turn_id intent =
    intent.scope.thread_id == thread_id
    && intent.turn_id == some turn_id
    && not (is_terminal intent.state)

abbrev pub affected_keys : String → String → List (String × PromptIntent) → List String
affected_keys thread_id turn_id [] = []
affected_keys thread_id turn_id ((key, intent) ∷ rest) =
    let others = affected_keys thread_id turn_id rest in
    if is_affected thread_id turn_id intent then key ∷ others else others

-- `unwrap_or_default`.
abbrev pub or_nothing : Result (List CodexWorkflowEffect) → List CodexWorkflowEffect
or_nothing (ok effects) = effects
or_nothing (err _) = []

-- `flat_map` over the affected prompts.
unfoldable pub finish_all :
    List String
    → TurnTerminalStatus
    → CodexWorkflowProjection
    → List CodexWorkflowEffect × CodexWorkflowProjection
finish_all [] status p = ([], p)
finish_all (id ∷ ids) status p =
    let (result, p') = finish_prompt id status p in
    let (effects, p'') = finish_all ids status p' in (or_nothing result ++ effects, p'')

unfoldable pub observe_turn_completed :
    String
    → String
    → TurnTerminalStatus
    → CodexWorkflowProjection
    → List CodexWorkflowEffect × CodexWorkflowProjection
unfolding finish_all
observe_turn_completed thread_id turn_id status p =
    if is_blank thread_id || is_blank turn_id
    then ([], p)
    else finish_all (affected_keys thread_id turn_id p.intents.entries) status
        (record p { terminal_turns = insert (thread_id, turn_id) status p.terminal_turns })
