-- ===== src/Projector/Tasks.antt =====
-- rust/crates/engine/src/projector.rs: the tasks of subagents, and the bound on how many are kept.
use codex_telegram_bridge.Prelude.{
  pair_cmp, Ordering, ℕ, zero, suc, Bool, true, false, ◌||◌, String, Option, none, some, List, [],
  ◌∷◌, length, if◌then◌else◌, ◌==◌, string_ord, ◌>>=◌, unwrap_or, take_chars, split_whitespace,
  join_words, ltb, nat_ord, pair_ord, option_ord, list_ord,
}
use codex_telegram_bridge.Prelude.Map.{Map, remove, contains}
use codex_telegram_bridge.Prelude.Int.{ℤ, pos, int_ord}
use codex_telegram_bridge.Json.{JsonApi, text_of, integer_of}

abbrev pub max_subagent_tasks : ℕ
max_subagent_tasks = 50

abbrev pub active_task_statuses : List String
active_task_statuses = "pending" ∷ "pendingInit" ∷ "active" ∷ "running" ∷ "inProgress" ∷ []

abbrev pub terminal_task_statuses : List String
terminal_task_statuses =
    "completed" ∷ "shutdown" ∷ "failed" ∷ "errored" ∷ "interrupted" ∷ "notFound" ∷ []

abbrev pub is_terminal_status : String → Bool
is_terminal_status status = contains status terminal_task_statuses

unfoldable pub normalize_task_status : String → String
normalize_task_status status =
    if status == "completed"
    then "completed"
    else if status == "shutdown"
    then "shutdown"
    else if status == "interrupted"
    then "interrupted"
    else if status == "notFound"
    then "notFound"
    else if status == "errored"
    then "failed"
    else if status == "running"
    then "inProgress"
    else "pending"

unfoldable pub compact_text : String → ℕ → String
compact_text value limit = take_chars limit (join_words (split_whitespace value))

unfoldable pub short_id_prefix : String → String
short_id_prefix id = take_chars 8 id

abbrev pub is_empty_text : String → Bool
is_empty_text s = s == ""

abbrev pub is_zero : ℤ → Bool
is_zero n = n == pos 0

-- `<` on pairs.
abbrev pub is_less : ℤ × String → ℤ × String → Bool
is_less a b = elim (pair_cmp a b) [ Ordering.lt ↦ true | _ ↦ false ]

unfoldable pub older_of : ℤ × String → ℤ × String → ℤ × String
older_of a b = if is_less a b then a else b

-- Is the status one that still runs, by the two that are stored?
abbrev pub is_open_status : String → Bool
is_open_status status = status == "pending" || status == "inProgress"

-- A task's fields before they are made a JSON object.
pub record Task : Type 0 where
  pub task_id : String
  pub title : String
  pub status : String
  pub agent_path : Option String
  pub agent_nickname : Option String
  pub agent_role : Option String
  pub model : Option String
  pub reasoning_effort : Option String
  pub message : String
  pub started_at : ℤ
  pub finished_at : ℤ
  pub updated_at : ℤ

module _ (api : JsonApi) where
  open api use {Value, get as field, as_str, as_array, as_object, string, integer, object}

  -- `task_text`: an empty text counts as absent.
  abbrev pub task_text : Option Value → String → Option String
  task_text task key =
      task >>= λ t. text_of api key t >>= λ s. if is_empty_text s then none else some s

  abbrev pub task_i64 : Option Value → String → Option ℤ
  task_i64 task key = task >>= λ t. integer_of api key t

  unfoldable pub subagent_task_value : Task → Value
  subagent_task_value t = object (
      ("task_id", string t.task_id)
      ∷ ("title", string t.title)
      ∷ ("status", string t.status)
      ∷ ("agent_thread_id", string t.task_id)
      ∷ ("agent_path", string (unwrap_or "" t.agent_path))
      ∷ ("agent_nickname", string (unwrap_or "" t.agent_nickname))
      ∷ ("agent_role", string (unwrap_or "" t.agent_role))
      ∷ ("model", string (unwrap_or "" t.model))
      ∷ ("reasoning_effort", string (unwrap_or "" t.reasoning_effort))
      ∷ ("message", string t.message)
      ∷ ("started_at", integer t.started_at)
      ∷ ("finished_at", integer t.finished_at)
      ∷ ("updated_at", integer t.updated_at)
      ∷ [])

  abbrev pub updated_at_of : Value → ℤ
  updated_at_of task = unwrap_or (pos 0) (integer_of api "updated_at" task)

  -- The least pair of moment and key.
  abbrev pub oldest_from : ℤ × String → List (String × Value) → ℤ × String
  oldest_from best [] = best
  oldest_from best ((key, task) ∷ rest) = oldest_from (older_of (updated_at_of task, key) best) rest

  abbrev pub drop_oldest : List (String × Value) → Map String Value → Map String Value
  drop_oldest [] tasks = tasks
  drop_oldest ((key, task) ∷ rest) tasks =
      remove (oldest_from (updated_at_of task, key) rest).1 tasks

  -- The loop, with the rounds that are left at most.
  unfoldable pub trim_rounds : ℕ → Map String Value → Map String Value
  trim_rounds zero tasks = tasks
  trim_rounds (suc rounds) tasks = elim (ltb max_subagent_tasks (length tasks.entries)) [
    | true ↦ trim_rounds rounds (drop_oldest tasks.entries tasks)
    | false ↦ tasks
  ]

  -- Each round takes a task away, so as many rounds as there are tasks are enough.
  unfoldable pub trim_subagent_tasks : Map String Value → Map String Value
  unfolding trim_rounds
  trim_subagent_tasks tasks = trim_rounds (length tasks.entries) tasks
