-- ===== src/Projector/Terminal.antt =====
-- rust/crates/engine/src/projector.rs: items that are read again do not revive a task.
use codex_telegram_bridge.Projector.Tasks.{
  active_task_statuses, is_terminal_status, normalize_task_status, task_text,
}
use codex_telegram_bridge.Projector.Subagents.{
  CollabCall, collab_status, collab_task, activity_status, activity_task,
}
use codex_telegram_bridge.Prelude.Map.{contains}
use codex_telegram_bridge.Prelude.Int.{ℤ, int_ord}
use codex_telegram_bridge.Prelude.{
  String, ◌≡◌, true, Option, some, string_ord, nat_ord, pair_ord, option_ord, list_ord, ◌||◌, refl,
  Bool, false, if◌then◌else◌, ◌==◌, ◌∙◌, inl, inr, ◌&&◌, Bool-cases, unwrap_or, sym,
}
use codex_telegram_bridge.Json.{JsonApi, text_of}

-- Either ends a task or lets it run.
abbrev is_known_status : String → Bool
is_known_status status = is_terminal_status status || contains status active_task_statuses

-- Whichever test is the first to hold.
known_of_tests :
    (a b c d e f : Bool)
    → is_known_status (
        if a
        then "completed"
        else if b
        then "shutdown"
        else if c
        then "interrupted"
        else if d
        then "notFound"
        else if e
        then "failed"
        else if f
        then "inProgress"
        else "pending")
      ≡ true
known_of_tests true b c d e f = refl
known_of_tests false true c d e f = refl
known_of_tests false false true d e f = refl
known_of_tests false false false true e f = refl
known_of_tests false false false false true f = refl
known_of_tests false false false false false true = refl
known_of_tests false false false false false false = refl

normalize_task_status_known : (raw : String) → is_known_status (normalize_task_status raw) ≡ true
unfolding normalize_task_status
normalize_task_status_known raw =
    known_of_tests (raw == "completed") (raw == "shutdown") (raw == "interrupted")
      (raw == "notFound") (raw == "errored") (raw == "running")

-- A historical item names a status that runs only where the task has not ended.
activity_of_tests :
    (interrupted running : Bool) (status : String)
    → is_terminal_status status ≡ true
    → is_terminal_status (
        if interrupted
        then "interrupted"
        else if running
        then (if is_terminal_status status then status else "inProgress")
        else status)
      ≡ true
activity_of_tests true running status h = refl
activity_of_tests false true status h = rw h h
activity_of_tests false false status h = h

or_left : (a b : Bool) → (a || b) ≡ true → b ≡ false → a ≡ true
or_left true b h n = refl
or_left false b h n = sym n ∙ h

collab_of_tests :
    (status next : String)
    → is_terminal_status status ≡ true
    → is_known_status next ≡ true
    → is_terminal_status
        (if is_terminal_status status && contains next active_task_statuses then status else next)
      ≡ true
collab_of_tests status next h known = elim (Bool-cases (contains next active_task_statuses)) [
  | inl runs ↦ rw (h, runs) h
  | inr ended ↦ rw (h, ended) (or_left (is_terminal_status next) _ known ended)
]

module _ (api : JsonApi) where
  open api use {Value}

  -- A task that has ended stays ended by what a historical item says.
  collab_status_terminal :
      (status raw : String)
      → is_terminal_status status ≡ true
      → is_terminal_status (collab_status api true (some status) (normalize_task_status raw)) ≡ true
  unfolding collab_status
  collab_status_terminal status raw h =
      collab_of_tests status (normalize_task_status raw) h (normalize_task_status_known raw)

  activity_status_terminal :
      (status kind : String)
      → is_terminal_status status ≡ true
      → is_terminal_status (activity_status api true kind (some status)) ≡ true
  unfolding activity_status
  activity_status_terminal status kind h =
      activity_of_tests (kind == "interrupted") (kind == "started" || kind == "interacted") status h

  -- A task whose status is terminal still has a terminal status after a historical item of either
  -- kind tells of it.
  pub historical_stays_terminal :
      (now : ℤ) (call : CollabCall) (id path kind status : String) (value : Value)
      (current : Option Value)
      → task_text api current "status" ≡ some status
      → is_terminal_status status ≡ true
      → (is_terminal_status (collab_task api now true call id value current).status ≡ true)
        × (is_terminal_status (activity_task api now true id path kind current).status ≡ true)
  unfolding collab_task activity_task
  historical_stays_terminal now call id path kind status value current e h = (
    rw (collab_task, e)
        (collab_status_terminal status (unwrap_or "pendingInit" (text_of api "status" value)) h),
    rw (activity_task, e) (activity_status_terminal status kind h),
  )
