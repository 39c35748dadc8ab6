-- ===== src/Telegram/Authorization.antt =====
-- rust/crates/telegram/src/lib.rs: who may send an update to which bot.
use codex_telegram_bridge.Telegram.Types.{
  TelegramChatKind, is_private, is_supergroup, TelegramActor, is_personal, RoutingError,
  UpdateRoutingPolicy, TelegramMessage, TelegramCallback, TelegramMembership, UpdateAuthorization,
  alert_bot_must_not_poll, UpdateRouter,
}
use codex_telegram_bridge.Telegram.Commands.{
  polls_updates, TelegramCommand, control_bot, status_bot, discussion_bot, alert_bot, pair, bind,
  help, RuntimeBotRole,
}
use codex_telegram_bridge.Prelude.Int.{ℤ, int_ord}
use codex_telegram_bridge.Prelude.{
  String, Bool, true, false, not, ◌&&◌, Option, none, some, if◌then◌else◌, has_some, Outcome,
  success, failure, lowercase, ◌==◌, string_ord, nat_ord, pair_ord, option_ord, list_ord, ◌||◌,
}

abbrev pub default_authorization : UpdateAuthorization
default_authorization = record {
  owner_user_id = none;
  bot_username = none;
  enforce_chat_kind = false;
  reject_sender_chat = false;
  bootstrap_only = false;
}

unfoldable pub new_router : RuntimeBotRole → UpdateRoutingPolicy → Outcome RoutingError UpdateRouter
new_router role policy =
    if polls_updates role
    then success (record { role = role; policy = policy; authorization = default_authorization })
    else failure alert_bot_must_not_poll

unfoldable pub new_with_authorization :
    RuntimeBotRole → UpdateRoutingPolicy → UpdateAuthorization → Outcome RoutingError UpdateRouter
unfolding new_router
new_with_authorization role policy authorization = elim (new_router role policy) [
  | failure e ↦ failure e
  | success router ↦ success (record router { authorization = authorization })
]

unfoldable pub python_owner : ℤ → String → UpdateAuthorization
python_owner owner_user_id bot_username = record {
  owner_user_id = some owner_user_id;
  bot_username = some (lowercase bot_username);
  enforce_chat_kind = true;
  reject_sender_chat = true;
  bootstrap_only = false;
}

-- Without an owner, everybody is.
abbrev pub is_owner : Option ℤ → Option ℤ → Bool
is_owner none user_id = true
is_owner (some owner) user_id = user_id == some owner

unfoldable pub allows_actor : UpdateAuthorization → TelegramActor → Bool
allows_actor a actor =
    is_owner a.owner_user_id actor.user_id && (not a.reject_sender_chat || is_personal actor)

unfoldable pub targets_this_bot : UpdateAuthorization → Option String → Bool
targets_this_bot a none = true
targets_this_bot a (some target) = elim a.bot_username [
  | none ↦ true
  | some expected ↦ lowercase target == lowercase expected
]

-- No owner yet, and only the commands that name one may pass.
abbrev pub is_bootstrap : UpdateAuthorization → Bool
is_bootstrap a = a.bootstrap_only && not (has_some a.owner_user_id)

abbrev pub is_status_bot : RuntimeBotRole → Bool
is_status_bot control_bot = false
is_status_bot status_bot = true
is_status_bot discussion_bot = false
is_status_bot alert_bot = false

abbrev pub message_kind_fits : RuntimeBotRole → TelegramChatKind → Bool
message_kind_fits control_bot kind = is_private kind
message_kind_fits status_bot kind = false
message_kind_fits discussion_bot kind = is_supergroup kind
message_kind_fits alert_bot kind = false

unfoldable pub message_is_authorized : UpdateRouter → TelegramMessage → Bool → Bool
unfolding allows_actor
message_is_authorized r message automatic_forward =
    if r.authorization.enforce_chat_kind && not (message_kind_fits r.role message.chat_kind)
    then false
    else if is_bootstrap r.authorization && is_status_bot r.role
    then false
    else if automatic_forward && is_bootstrap r.authorization
    then false
    else automatic_forward || allows_actor r.authorization message.actor

abbrev pub callback_kind_fits : RuntimeBotRole → TelegramChatKind → Bool
callback_kind_fits control_bot kind = is_private kind
callback_kind_fits status_bot kind = is_supergroup kind
callback_kind_fits discussion_bot kind = is_supergroup kind
callback_kind_fits alert_bot kind = false

unfoldable pub callback_is_authorized : UpdateRouter → TelegramCallback → Bool
unfolding allows_actor
callback_is_authorized r callback =
    if r.authorization.enforce_chat_kind && not (callback_kind_fits r.role callback.chat_kind)
    then false
    else if is_bootstrap r.authorization
    then false
    else allows_actor r.authorization callback.actor

-- The chat of the role.
abbrev pub home_chat : UpdateRouter → ℤ
home_chat r = elim r.role [
  | control_bot ↦ r.policy.control_owner_chat_id
  | _ ↦ r.policy.linked_discussion.discussion_chat_id
]

unfoldable pub membership_is_authorized : UpdateRouter → TelegramMembership → Bool
membership_is_authorized r membership =
    if r.authorization.enforce_chat_kind
    then membership.chat_id == home_chat r && callback_kind_fits r.role membership.chat_kind
    else true

abbrev pub is_bootstrap_command : RuntimeBotRole → TelegramCommand → Bool
is_bootstrap_command control_bot command = elim command [ pair ↦ true | help ↦ true | _ ↦ false ]
is_bootstrap_command discussion_bot command = elim command [ bind ↦ true | help ↦ true | _ ↦ false ]
is_bootstrap_command status_bot command = false
is_bootstrap_command alert_bot command = false
