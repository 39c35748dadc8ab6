-- ===== src/Projector/Subagents.antt =====
-- rust/crates/engine/src/projector.rs: what items tell of the tasks of subagents.
use codex_telegram_bridge.Projector.Tasks.{
  active_task_statuses, is_terminal_status, normalize_task_status, compact_text, short_id_prefix,
  is_empty_text, is_zero, is_open_status, task_text, task_i64, Task, subagent_task_value,
  trim_subagent_tasks,
}
use Prim.Native.String.{◌++◌}
use codex_telegram_bridge.Prelude.{
  Bool, not, ◌&&◌, ◌||◌, String, Option, none, some, List, [], ◌∷◌, if◌then◌else◌, ◌==◌, string_ord,
  or_else, ◌>>=◌, unwrap_or, has_some, nat_ord, pair_ord, option_ord, list_ord,
}
use codex_telegram_bridge.Prelude.Map.{Map, get, insert, contains}
use codex_telegram_bridge.Prelude.Int.{ℤ, pos, ltb_ℤ, int_ord, div_euclid}
use codex_telegram_bridge.Json.{JsonApi, text_of, get_either, texts}
use codex_telegram_bridge.Projector.Types.{ThreadProjection}

-- What a `collabAgentToolCall` says of all its agents.
pub record CollabCall : Type 0 where
  pub prompt : String
  pub is_spawn : Bool
  pub receivers : List String
  pub spawned_model : String
  pub spawned_effort : String

module _ (api : JsonApi) where
  open api use {Value, get as field, as_str, as_array, as_object}

  unfoldable pub collab_call : Value → CollabCall
  unfolding compact_text
  collab_call item =
      let tool = unwrap_or "" (text_of api "tool" item) in
      record {
        prompt = compact_text (unwrap_or "" (text_of api "prompt" item)) 160;
        is_spawn = tool == "spawnAgent" || tool == "spawn_agent";
        receivers = unwrap_or [] (
            get_either api "receiverThreadIds" "receiver_thread_ids" item >>= λ value.
            as_array value >>= λ values. some (texts api values));
        spawned_model = unwrap_or "" (text_of api "model" item);
        spawned_effort =
            unwrap_or "" (get_either api "reasoningEffort" "reasoning_effort" item >>= as_str);
      }

  -- A historical item does not take a task that has ended back to one that runs.
  unfoldable pub collab_status : Bool → Option String → String → String
  collab_status historical current status =
      let kept = unwrap_or status current in
      if historical
        && is_terminal_status (unwrap_or "" current)
        && contains status active_task_statuses
      then kept
      else status

  unfoldable pub collab_started : ℤ → String → Option ℤ → ℤ
  collab_started now status started_at =
      let since = unwrap_or (pos 0) started_at in
      if is_zero since && is_open_status status then now else since

  unfoldable pub collab_finished : ℤ → String → Option ℤ → ℤ
  collab_finished now status finished_at =
      let since = unwrap_or (pos 0) finished_at in
      if is_terminal_status status
      then (if is_zero since then now else since)
      else if is_open_status status
      then pos 0
      else since

  unfoldable pub collab_title : CollabCall → String → Option Value → String
  unfolding short_id_prefix
  collab_title call task_id current =
      if not (is_empty_text call.prompt) && (call.is_spawn || not (has_some current))
      then call.prompt
      else unwrap_or ("Agent " ++ short_id_prefix task_id) (task_text api current "title")

  -- A spawned agent takes what the call names, any other keeps what it has.
  abbrev spawned : Bool → String → Option String → Option String
  spawned receives value kept = if receives && not (is_empty_text value) then some value else kept

  unfoldable pub collab_task : ℤ → Bool → CollabCall → String → Value → Option Value → Task
  unfolding collab_status collab_started collab_finished collab_title normalize_task_status
  collab_task now historical call task_id value current =
      let status =
        collab_status historical (task_text api current "status")
          (normalize_task_status (unwrap_or "pendingInit" (text_of api "status" value))) in
      let receives = call.is_spawn && contains task_id call.receivers in
      record {
        task_id = task_id;
        title = collab_title call task_id current;
        status = status;
        agent_path = task_text api current "agent_path";
        agent_nickname = task_text api current "agent_nickname";
        agent_role = task_text api current "agent_role";
        model = spawned receives call.spawned_model (task_text api current "model");
        reasoning_effort =
            spawned receives call.spawned_effort (task_text api current "reasoning_effort");
        message =
            unwrap_or "" (or_else (text_of api "message" value) (task_text api current "message"));
        started_at = collab_started now status (task_i64 api current "started_at");
        finished_at = collab_finished now status (task_i64 api current "finished_at");
        updated_at = now;
      }

  -- The loop over the states of the agents. A state that is no object is skipped.
  unfoldable pub collab_states :
      ℤ → Bool → CollabCall → List (String × Value) → Map String Value → Map String Value
  unfolding collab_task subagent_task_value
  collab_states now historical call [] tasks = tasks
  collab_states now historical call ((task_id, value) ∷ rest) tasks =
      let task =
        subagent_task_value api
          (collab_task now historical call task_id value (get task_id tasks)) in
      collab_states now historical call rest
        (if has_some (as_object value) then insert task_id task tasks else tasks)

  unfoldable pub project_collab_agent_tool_call :
      ℤ → Bool → Value → Map String Value → Map String Value
  unfolding collab_call collab_states trim_subagent_tasks
  project_collab_agent_tool_call now historical item tasks =
      elim (get_either api "agentsStates" "agents_states" item >>= as_object) [
        | none ↦ tasks
        | some states ↦
            trim_subagent_tasks api (collab_states now historical (collab_call item) states tasks)
      ]

  unfoldable pub activity_status : Bool → String → Option String → String
  activity_status historical kind current =
      if kind == "interrupted"
      then "interrupted"
      else if kind == "started" || kind == "interacted"
      then (if historical && is_terminal_status (unwrap_or "" current)
          then unwrap_or "inProgress" current
          else "inProgress")
      else unwrap_or "pending" current

  unfoldable pub activity_finished : ℤ → String → Option ℤ → ℤ
  activity_finished now status finished_at =
      let since = unwrap_or (pos 0) finished_at in
      if is_terminal_status status then (if is_zero since then now else since) else pos 0

  abbrev positive : ℤ → Option ℤ
  positive n = if ltb_ℤ (pos 0) n then some n else none

  unfoldable pub activity_task : ℤ → Bool → String → String → String → Option Value → Task
  unfolding activity_status activity_finished short_id_prefix
  activity_task now historical id path kind current =
      let status = activity_status historical kind (task_text api current "status") in
      let name = if is_empty_text path then "Agent " ++ short_id_prefix id else "Agent " ++ path in
      record {
        task_id = id;
        title = unwrap_or name (task_text api current "title");
        status = status;
        agent_path = if is_empty_text path then task_text api current "agent_path" else some path;
        agent_nickname = task_text api current "agent_nickname";
        agent_role = task_text api current "agent_role";
        model = task_text api current "model";
        reasoning_effort = task_text api current "reasoning_effort";
        message = unwrap_or "" (task_text api current "message");
        started_at = unwrap_or now (task_i64 api current "started_at" >>= positive);
        finished_at = activity_finished now status (task_i64 api current "finished_at");
        updated_at = now;
      }

  unfoldable pub project_subagent_activity : ℤ → Bool → Value → Map String Value → Map String Value
  unfolding activity_task subagent_task_value trim_subagent_tasks compact_text
  project_subagent_activity now historical item tasks =
      let id = unwrap_or "" (get_either api "agentThreadId" "agent_thread_id" item >>= as_str) in
      let path =
        compact_text (unwrap_or "" (get_either api "agentPath" "agent_path" item >>= as_str)) 120 in
      let kind = unwrap_or "" (text_of api "kind" item) in
      if is_empty_text id
      then tasks
      else trim_subagent_tasks api (
          insert id
            (subagent_task_value api (activity_task now historical id path kind (get id tasks)))
            tasks)

  unfoldable pub project_by_type :
      Option String → ℤ → Bool → Value → Map String Value → Map String Value
  unfolding project_collab_agent_tool_call project_subagent_activity
  project_by_type none now historical item tasks = tasks
  project_by_type (some kind) now historical item tasks =
      if kind == "collabAgentToolCall"
      then project_collab_agent_tool_call now historical item tasks
      else if kind == "subAgentActivity"
      then project_subagent_activity now historical item tasks
      else tasks

  -- `now_ms` in seconds.
  unfoldable pub project_item_subagents :
      ℤ → Bool → Value → ThreadProjection Value → ThreadProjection Value
  unfolding project_by_type
  project_item_subagents now_ms historical item p = record p {
    subagents =
        project_by_type (text_of api "type" item) (div_euclid now_ms 1000) historical item
          p.subagents;
  }
