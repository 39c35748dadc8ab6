-- ===== src/Workflow/Types.antt =====
-- rust/crates/engine/src/lib.rs, lines 192-396: the data of the workflow projection.
use codex_telegram_bridge.Prelude.{
  ℕ, ◌≡◌, Bool, true, false, Option, none, some, String, Ordering, List, arith, Ord, then,
  option_cmp, option_cmp_refl, eq_of_option_cmp, string_ord, nat_ord, option_ord,
}
use Prim.Native.Nat.Ordering.{eq}
use codex_telegram_bridge.Prelude.Map.{Map, empty}

pub record WorkflowScope : Type 0 where
  pub thread_id : String
  pub space_id : Option String
  pub space_generation : ℕ

unfoldable pub legacy : String → WorkflowScope
legacy thread_id = record { thread_id = thread_id; space_id = none; space_generation = 0 }

unfoldable pub space : String → String → ℕ → WorkflowScope
space thread_id space_id generation = record {
  thread_id = thread_id;
  space_id = some space_id;
  space_generation = generation;
}

-- The derived order: the fields in turn.
abbrev pub scope_cmp : WorkflowScope → WorkflowScope → Ordering
scope_cmp a b =
    then (string_ord.cmp a.thread_id b.thread_id)
      (then (option_cmp a.space_id b.space_id) (nat_ord.cmp a.space_generation b.space_generation))

pub scope_cmp_refl : (a : WorkflowScope) → scope_cmp a a ≡ eq
scope_cmp_refl a = ground (
  arith,
  string_ord.cmp_refl a.thread_id,
  option_cmp_refl a.space_id,
  nat_ord.cmp_refl a.space_generation,
)

pub eq_of_scope_cmp : (a b : WorkflowScope) → scope_cmp a b ≡ eq → a ≡ b
eq_of_scope_cmp a b h = ground (
  arith,
  string_ord.eq_of_cmp a.thread_id b.thread_id,
  eq_of_option_cmp a.space_id b.space_id,
  nat_ord.eq_of_cmp a.space_generation b.space_generation,
)

instance abbrev pub scope_ord : Ord WorkflowScope
scope_ord = record { cmp = scope_cmp; cmp_refl = scope_cmp_refl; eq_of_cmp = eq_of_scope_cmp }

pub data PromptIntentState : Type 0 where
  received awaiting_choice queued submitting started steered : PromptIntentState
  completed failed uncertain cancelled : PromptIntentState

pub PromptIntentState-discrete : Discrete PromptIntentState
PromptIntentState-discrete = hlevel

abbrev pub is_terminal : PromptIntentState → Bool
is_terminal completed = true
is_terminal failed = true
is_terminal cancelled = true
is_terminal uncertain = true
is_terminal _ = false

pub record PromptIntent : Type 0 where
  pub client_message_id : String
  pub scope : WorkflowScope
  pub state : PromptIntentState
  pub turn_id : Option String

pub data TurnTerminalStatus : Type 0 where
  turn_completed turn_failed turn_interrupted : TurnTerminalStatus

abbrev pub intent_state : TurnTerminalStatus → PromptIntentState
intent_state turn_completed = completed
intent_state turn_failed = failed
intent_state turn_interrupted = cancelled

pub data DeliveryObservation : Type 0 where
  present : String → Option TurnTerminalStatus → DeliveryObservation
  absent unknown : DeliveryObservation

pub data PendingRequestKind : Type 0 where
  user_input approval : PendingRequestKind

pub data PendingRequestState : Type 0 where
  available claimed responded resolved retired : PendingRequestState

pub record PendingServerRequest : Type 0 where
  pub request_key : String
  pub request_id : String
  pub generation : ℕ
  pub scope : WorkflowScope
  pub kind : PendingRequestKind
  pub state : PendingRequestState

pub record PlanPublication : Type 0 where
  pub scope : WorkflowScope
  pub turn_id : String
  pub item_id : String
  pub revision_key : String
  pub text : String

pub data CodexWorkflowEffect : Type 0 where
  reconcile_thread retry_queue : WorkflowScope → CodexWorkflowEffect
  prompt_finished : String → WorkflowScope → String → TurnTerminalStatus → CodexWorkflowEffect
  retire_server_request server_request_resolved : String → CodexWorkflowEffect
  publish_plan : PlanPublication → CodexWorkflowEffect

pub data CodexWorkflowError : Type 0 where
  empty_client_message_id empty_thread_id : CodexWorkflowError
  intent_collision unknown_prompt : String → CodexWorkflowError
  invalid_prompt_transition : PromptIntentState → PromptIntentState → CodexWorkflowError
  -- expected, actual
  stale_generation : ℕ → ℕ → CodexWorkflowError
  unknown_server_request server_request_unavailable : String → CodexWorkflowError
  invalid_plan_publication : CodexWorkflowError

-- `Result<A, CodexWorkflowError>`.
pub data Result {ℓ} (A : Type ℓ) : Type ℓ where
  ok : A → Result A
  err : CodexWorkflowError → Result A

pub record CodexWorkflowProjection : Type 0 where
  pub connection_generation : Option ℕ
  pub connected : Bool
  pub intents : Map String PromptIntent
  pub queues : Map WorkflowScope (List String)
  pub pending_requests : Map String PendingServerRequest
  pub terminal_turns : Map (String × String) TurnTerminalStatus
  pub plans : Map (WorkflowScope × String) PlanPublication

-- A method on `&mut self` gives its result and the projection that it leaves, on an error too.
abbrev pub Step : Type 0 → Type 0
Step A = Result A × CodexWorkflowProjection

unfoldable pub new : CodexWorkflowProjection
unfolding empty
new = record {
  connection_generation = none;
  connected = false;
  intents = empty;
  queues = empty;
  pending_requests = empty;
  terminal_turns = empty;
  plans = empty;
}
