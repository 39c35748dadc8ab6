-- ===== src/Projector/Types.antt =====
-- rust/crates/engine/src/projector.rs: the data. `V` is the type of JSON values.
use codex_telegram_bridge.Prelude.{
  ℕ, Bool, false, String, Option, none, List, [], ◌∷◌, if◌then◌else◌, string_ord,
}
use codex_telegram_bridge.Prelude.Map.{Map, empty, contains}
use codex_telegram_bridge.Prelude.Int.{ℤ, pos}

-- The set of completed turns is a list that holds each once.
pub record ThreadProjection (V : Type 0) : Type 0 where
  pub thread_id : String
  pub title : Option String
  pub cwd : Option String
  pub status : Option String
  pub turn_id : Option String
  pub turn_status : Option String
  pub goal : Option V
  pub plan : Option V
  pub review_status : Option String
  pub desired_mode : Option String
  pub observed_mode : Option String
  pub active_flags : List String
  pub model : Option String
  pub effort : Option String
  pub started_at_ms : Option ℤ
  pub finished_at_ms : Option ℤ
  pub completed_turns_duration_ms : ℤ
  pub completed_turn_ids : List String
  pub items : Map String V
  pub item_order : List String
  pub subagents : Map String V
  pub last_error : Option String
  pub last_error_recoverable : Bool
  pub generation : ℕ
  pub updated_at_ms : ℤ

pub data ProjectionEffect : Type 0 where
  no_effect refresh_status turn_ended failure_reported : ProjectionEffect

-- `AgentEvent` of rust/crates/domain/src/lib.rs.
pub record AgentEvent (V : Type 0) : Type 0 where
  pub method : String
  pub params : V
  pub generation : ℕ

abbrev pub EventProjector : Type 0 → Type 0
EventProjector V = Map String (ThreadProjection V)

-- `HashSet::insert`.
abbrev pub add_member : String → List String → List String
add_member x xs = if contains x xs then xs else x ∷ xs

-- The projection of a thread that is new.
unfoldable pub new_thread : {V : Type 0} → String → ℕ → ThreadProjection V
unfolding empty
new_thread thread_id generation = record {
  thread_id = thread_id;
  title = none;
  cwd = none;
  status = none;
  turn_id = none;
  turn_status = none;
  goal = none;
  plan = none;
  review_status = none;
  desired_mode = none;
  observed_mode = none;
  active_flags = [];
  model = none;
  effort = none;
  started_at_ms = none;
  finished_at_ms = none;
  completed_turns_duration_ms = pos 0;
  completed_turn_ids = [];
  items = empty;
  item_order = [];
  subagents = empty;
  last_error = none;
  last_error_recoverable = false;
  generation = generation;
  updated_at_ms = pos 0;
}
