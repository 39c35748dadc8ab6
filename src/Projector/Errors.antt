-- ===== src/Projector/Errors.antt =====
-- rust/crates/engine/src/projector.rs: the last error of a thread, which may be one that passes.
use codex_telegram_bridge.Projector.Types.{ThreadProjection}
use codex_telegram_bridge.Projector.Subagents.{project_item_subagents}
use codex_telegram_bridge.Projector.Reading.{
  merge_from, merge_thread, clear_recoverable_error, clear_if,
}
use codex_telegram_bridge.Projector.Handlers.{
  Clock, truncate_items, count_turn, project_thread, project_status, project_settings,
  project_turn_started, project_turn_updated, project_turn_ended, put_item, project_item,
  project_subagent, project_error,
}
use codex_telegram_bridge.Projector.Apply.{
  EventKind, apply_kind, thread_event, status_event, settings_event, turn_started_event,
  turn_updated_event, turn_ended_event, item_event, delta_event, plan_event, goal_event,
  subagent_event, review_event, error_event, other_event,
}
use codex_telegram_bridge.Prelude.Int.{int_ord}
use codex_telegram_bridge.Prelude.{
  String, ◌≡◌, refl, ◌∙◌, ◌≢◌, false, some, arith, string_ord, nat_ord, pair_ord, option_ord,
  list_ord,
}
use codex_telegram_bridge.Json.{JsonApi}

-- The thread shows this error, from which it does not recover.
pub record HasFailed {V : Type 0} (message : String) (p : ThreadProjection V) : Type 0 where
  pub is_shown : p.last_error ≡ some message
  pub is_final : p.last_error_recoverable ≡ false

module _ (api : JsonApi) where
  open api use {Value}

  HasFailed-same :
      (message : String) (p q : ThreadProjection Value)
      → (q.last_error ≡ p.last_error) × (q.last_error_recoverable ≡ p.last_error_recoverable)
      → HasFailed message p
      → HasFailed message q
  HasFailed-same message p q (same, kept) h = record {
    is_shown = same ∙ h.is_shown;
    is_final = kept ∙ h.is_final;
  }

  -- An error that does not pass is shown until the next error, whatever other event comes.
  pub apply_kind-HasFailed :
      (kind : EventKind) (clock : Clock) (params : Value) (message : String)
      (p : ThreadProjection Value)
      → kind ≢ error_event
      → HasFailed message p
      → HasFailed message (apply_kind api kind clock params p).1
  unfolding apply_kind project_thread project_status project_settings project_turn_started
      project_turn_updated project_turn_ended project_subagent project_error clear_if
      clear_recoverable_error count_turn merge_thread merge_from project_item put_item
      truncate_items project_item_subagents
  apply_kind-HasFailed kind clock params message p n h = HasFailed-same message p _ (same kind n) h
    where
      same :
          (kind : EventKind)
          → kind ≢ error_event
          → let q = (apply_kind api kind clock params p).1 in
            (q.last_error ≡ p.last_error) × (q.last_error_recoverable ≡ p.last_error_recoverable)
      same thread_event n = ground (arith, h.is_final)
      same status_event n = ground (arith, h.is_final)
      same settings_event n = (refl, refl)
      same turn_started_event n = ground (arith, h.is_final)
      same turn_updated_event n = ground (arith, h.is_final)
      same (turn_ended_event rest) n = ground arith
      same item_event n = ground arith
      same delta_event n = (refl, refl)
      same plan_event n = (refl, refl)
      same goal_event n = (refl, refl)
      same subagent_event n = ground arith
      same (review_event rest) n = (refl, refl)
      same error_event n = absurd (n refl)
      same other_event n = (refl, refl)
