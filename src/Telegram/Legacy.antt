-- ===== src/Telegram/Legacy.antt =====
-- rust/crates/telegram/src/lib.rs: the commands as the daemon takes them.
use codex_telegram_bridge.Telegram.Commands.{
  answer, unknown, plan, RuntimeBotRole, TelegramCommand, allowed_for_role, control_bot, status_bot,
  discussion_bot, alert_bot, timeline, attach, get_file, unwatch, review, cancel, status, prompt,
  lock, sessions, new, queue, pair, bind, totp, perf, help, topics, ask, plan_mode, change_model,
  control_allows, discussion_allows,
}
use codex_telegram_bridge.Prelude.Int.{int_ord}
use codex_telegram_bridge.Prelude.{
  String, ◌≡◌, refl, Bool, true, false, string_ord, nat_ord, pair_ord, option_ord, list_ord,
}

pub data WorkflowCommand : Type 0 where
  workflow_pair workflow_bind workflow_new workflow_totp workflow_lock workflow_status workflow_perf
        workflow_help workflow_sessions workflow_topics workflow_prompt workflow_ask workflow_queue
        workflow_plan_mode workflow_change_model workflow_plan workflow_timeline workflow_attach
        workflow_get_file workflow_unwatch workflow_review workflow_answer workflow_cancel :
      WorkflowCommand
  workflow_unknown : String → WorkflowCommand

unfoldable pub into_legacy : TelegramCommand → WorkflowCommand
into_legacy pair = workflow_pair
into_legacy bind = workflow_bind
into_legacy new = workflow_new
into_legacy totp = workflow_totp
into_legacy lock = workflow_lock
into_legacy status = workflow_status
into_legacy perf = workflow_perf
into_legacy help = workflow_help
into_legacy sessions = workflow_sessions
into_legacy topics = workflow_topics
into_legacy prompt = workflow_prompt
into_legacy ask = workflow_ask
into_legacy queue = workflow_queue
into_legacy plan_mode = workflow_plan_mode
into_legacy change_model = workflow_change_model
into_legacy plan = workflow_plan
into_legacy timeline = workflow_timeline
into_legacy attach = workflow_attach
into_legacy get_file = workflow_get_file
into_legacy unwatch = workflow_unwatch
into_legacy review = workflow_review
into_legacy answer = workflow_answer
into_legacy cancel = workflow_cancel
into_legacy (unknown value) = workflow_unknown value

abbrev workflow_control_allows : WorkflowCommand → Bool
workflow_control_allows workflow_pair = true
workflow_control_allows workflow_bind = false
workflow_control_allows workflow_new = true
workflow_control_allows workflow_totp = false
workflow_control_allows workflow_lock = false
workflow_control_allows workflow_status = false
workflow_control_allows workflow_perf = true
workflow_control_allows workflow_help = true
workflow_control_allows workflow_sessions = true
workflow_control_allows workflow_topics = true
workflow_control_allows workflow_prompt = false
workflow_control_allows workflow_ask = false
workflow_control_allows workflow_queue = false
workflow_control_allows workflow_plan_mode = false
workflow_control_allows workflow_change_model = false
workflow_control_allows workflow_plan = false
workflow_control_allows workflow_timeline = false
workflow_control_allows workflow_attach = false
workflow_control_allows workflow_get_file = false
workflow_control_allows workflow_unwatch = false
workflow_control_allows workflow_review = false
workflow_control_allows workflow_answer = false
workflow_control_allows workflow_cancel = false
workflow_control_allows (workflow_unknown value) = true

abbrev workflow_discussion_allows : WorkflowCommand → Bool
workflow_discussion_allows workflow_pair = false
workflow_discussion_allows workflow_bind = true
workflow_discussion_allows workflow_new = false
workflow_discussion_allows workflow_totp = true
workflow_discussion_allows workflow_lock = true
workflow_discussion_allows workflow_status = true
workflow_discussion_allows workflow_perf = false
workflow_discussion_allows workflow_help = true
workflow_discussion_allows workflow_sessions = false
workflow_discussion_allows workflow_topics = false
workflow_discussion_allows workflow_prompt = true
workflow_discussion_allows workflow_ask = true
workflow_discussion_allows workflow_queue = true
workflow_discussion_allows workflow_plan_mode = true
workflow_discussion_allows workflow_change_model = true
workflow_discussion_allows workflow_plan = true
workflow_discussion_allows workflow_timeline = true
workflow_discussion_allows workflow_attach = true
workflow_discussion_allows workflow_get_file = true
workflow_discussion_allows workflow_unwatch = true
workflow_discussion_allows workflow_review = true
workflow_discussion_allows workflow_answer = true
workflow_discussion_allows workflow_cancel = true
workflow_discussion_allows (workflow_unknown value) = true

unfoldable pub workflow_allowed_for_role : RuntimeBotRole → WorkflowCommand → Bool
workflow_allowed_for_role control_bot command = workflow_control_allows command
workflow_allowed_for_role discussion_bot command = workflow_discussion_allows command
workflow_allowed_for_role status_bot command = false
workflow_allowed_for_role alert_bot command = false

control-into_legacy :
    (command : TelegramCommand)
    → workflow_control_allows (into_legacy command) ≡ control_allows command
unfolding into_legacy
control-into_legacy pair = refl
control-into_legacy bind = refl
control-into_legacy new = refl
control-into_legacy totp = refl
control-into_legacy lock = refl
control-into_legacy status = refl
control-into_legacy perf = refl
control-into_legacy help = refl
control-into_legacy sessions = refl
control-into_legacy topics = refl
control-into_legacy prompt = refl
control-into_legacy ask = refl
control-into_legacy queue = refl
control-into_legacy plan_mode = refl
control-into_legacy change_model = refl
control-into_legacy plan = refl
control-into_legacy timeline = refl
control-into_legacy attach = refl
control-into_legacy get_file = refl
control-into_legacy unwatch = refl
control-into_legacy review = refl
control-into_legacy answer = refl
control-into_legacy cancel = refl
control-into_legacy (unknown value) = refl

discussion-into_legacy :
    (command : TelegramCommand)
    → workflow_discussion_allows (into_legacy command) ≡ discussion_allows command
unfolding into_legacy
discussion-into_legacy pair = refl
discussion-into_legacy bind = refl
discussion-into_legacy new = refl
discussion-into_legacy totp = refl
discussion-into_legacy lock = refl
discussion-into_legacy status = refl
discussion-into_legacy perf = refl
discussion-into_legacy help = refl
discussion-into_legacy sessions = refl
discussion-into_legacy topics = refl
discussion-into_legacy prompt = refl
discussion-into_legacy ask = refl
discussion-into_legacy queue = refl
discussion-into_legacy plan_mode = refl
discussion-into_legacy change_model = refl
discussion-into_legacy plan = refl
discussion-into_legacy timeline = refl
discussion-into_legacy attach = refl
discussion-into_legacy get_file = refl
discussion-into_legacy unwatch = refl
discussion-into_legacy review = refl
discussion-into_legacy answer = refl
discussion-into_legacy cancel = refl
discussion-into_legacy (unknown value) = refl

-- The command that the daemon takes is allowed for a bot just when the parsed one is.
pub allowed-into_legacy :
    (role : RuntimeBotRole) (command : TelegramCommand)
    → workflow_allowed_for_role role (into_legacy command) ≡ allowed_for_role role command
unfolding workflow_allowed_for_role allowed_for_role
allowed-into_legacy control_bot command = control-into_legacy command
allowed-into_legacy discussion_bot command = discussion-into_legacy command
allowed-into_legacy status_bot command = refl
allowed-into_legacy alert_bot command = refl
