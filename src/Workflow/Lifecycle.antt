-- ===== src/Workflow/Lifecycle.antt =====
-- What one call may do to one prompt: the lifecycle diagram of a prompt intent.
pub mod Prompting
pub mod Delivering
pub mod Steps
use mathlib.Core.Option
use codex_telegram_bridge.Prelude.{
  ℕ, ◌≡◌, refl, ◌⊎◌, inl, inr, Bool, true, false, not, ◌&&◌, ◌||◌, Option, none, some, String, List,
  [], ◌∷◌, ◌==◌, string_ord, option_ord, if◌then◌else◌, arith, Option-cases, Bool-cases, eq_iff,
}
use codex_telegram_bridge.Prelude.Map.{
  Map, get, insert, get-insert, get-map_values, get_entry, contains, Distinct, firsts, keys,
}
use codex_telegram_bridge.Workflow.Types.{
  WorkflowScope, PromptIntentState, received, awaiting_choice, queued, submitting, started, steered,
  completed, failed, uncertain, cancelled, PromptIntent, TurnTerminalStatus, turn_completed,
  turn_failed, turn_interrupted, intent_state, DeliveryObservation, present, absent, unknown,
  is_terminal, Result, ok, err, CodexWorkflowProjection, Step,
}
use codex_telegram_bridge.Workflow.Prompts.{
  put_intent, same_state, is_valid_transition, transition_prompt, required_intent, create_prompt,
  queue_prompt, await_choice, dispatch_head, dispatch_from, begin_dispatch, finish_turn,
  finish_prompt, queue_of,
}
use codex_telegram_bridge.Workflow.Delivery.{
  is_settled, observe_present, observe_intent, observe_delivery, settle, settle_started,
  start_intent, observe_turn_started, is_affected, affected_keys, finish_all,
  observe_turn_completed,
}
use codex_telegram_bridge.Workflow.Cases.{
  try_cases, if_cases, intent_cases, finish_intent, get-finish_prompt, get-finish_all,
  contains-affected_keys, is_affected_found,
}
use codex_telegram_bridge.Workflow.Connection.{doubt, observe_connection}
use codex_telegram_bridge.Workflow.Machine.{
  Call, connection, create, queue, choice, dispatch, delivery, turn_start, turn_end, plan, register,
  claim, respond, resolution, step,
}

-- What an unsettled prompt may become.
abbrev pub enters : PromptIntentState → PromptIntentState → Bool
enters received awaiting_choice = true
enters received queued = true
enters awaiting_choice queued = true
enters submitting queued = true
enters uncertain queued = true
enters queued submitting = true
enters _ started = true
enters _ completed = true
enters _ failed = true
enters _ uncertain = true
enters _ cancelled = true
enters _ _ = false

-- The edges of the lifecycle diagram, each state's own loop included.
abbrev pub may_become : PromptIntentState → PromptIntentState → Bool
may_become s t = same_state s t || not (is_settled s) && enters s t

-- A prompt keeps its name and its scope, moves along an edge, and stays as it is once settled.
pub record Moves (i j : PromptIntent) : Type 0 where
  pub name_kept : j.client_message_id ≡ i.client_message_id
  pub scope_kept : j.scope ≡ i.scope
  pub edge : may_become i.state j.state ≡ true
  pub settled_kept : is_settled i.state ≡ true → j ≡ i

-- A call adds a prompt as received, and loses none.
abbrev pub Evolves : Option PromptIntent → Option PromptIntent → Type 0
Evolves none none = Unit
Evolves none (some j) = (j.state ≡ received) × (j.turn_id ≡ none)
Evolves (some i) none = ⊥
Evolves (some i) (some j) = Moves i j

pub Moves-refl : (i : PromptIntent) → Moves i i
Moves-refl i = ground arith

pub Evolves-refl : (o : Option PromptIntent) → Evolves o o
Evolves-refl none = tt
Evolves-refl (some i) = Moves-refl i

-- One intent is written, and the others stay.
pub Evolves-put :
    (p : CodexWorkflowProjection) (id j : String) {i k : PromptIntent}
    → get id p.intents ≡ some i
    → Moves i k
    → Evolves (get j p.intents) (get j (insert id k p.intents))
Evolves-put p id j {i} {k} e m = rw (get-insert id j k p.intents) (elim (Bool-cases (id == j)) [
  | inl same ↦ rw (same, ← ((eq_iff id j).0 same), e) m
  | inr other ↦ rw other (Evolves-refl (get j p.intents))
])

-- What becomes of the prompt `j` between two projections.
abbrev pub EvolvesAt : String → CodexWorkflowProjection → CodexWorkflowProjection → Type 0
EvolvesAt j p q = Evolves (get j p.intents) (get j q.intents)
