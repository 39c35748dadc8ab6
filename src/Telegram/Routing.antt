-- ===== src/Telegram/Routing.antt =====
-- rust/crates/telegram/src/lib.rs: `UpdateRouter`, which update becomes an effect.
use codex_telegram_bridge.Telegram.Authorization.{
  targets_this_bot, is_bootstrap, message_is_authorized, callback_is_authorized, home_chat,
  is_bootstrap_command, membership_is_authorized,
}
use codex_telegram_bridge.Telegram.Types.{
  dispatch, TelegramMessage, IncomingUpdate, RoutedEffect, message_update, edited_message,
  callback_update, membership_update, unsupported, command_effect, prompt_effect, attachment_effect,
  callback_effect, native_comment_post, membership_changed, ignore, UpdateRouter,
}
use codex_telegram_bridge.Telegram.Parsing.{from_update}
use codex_telegram_bridge.Telegram.Commands.{
  allowed_for_role, ParsedTelegramCommand, parse, control_bot, status_bot, discussion_bot,
  alert_bot, RuntimeBotRole,
}
use codex_telegram_bridge.Prelude.Int.{ℤ, int_ord}
use codex_telegram_bridge.Prelude.{
  String, Bool, true, false, not, ◌&&◌, Option, none, some, if◌then◌else◌, unwrap_or, is_blank,
  ◌==◌, string_ord, nat_ord, pair_ord, option_ord, list_ord, ◌||◌, or_else,
}
use codex_telegram_bridge.Json.{JsonApi}

unfoldable pub route_command :
    UpdateRouter → TelegramMessage → Option ℤ → String → ParsedTelegramCommand → RoutedEffect
unfolding targets_this_bot allowed_for_role
route_command r message root_message_id text parsed =
    if not (targets_this_bot r.authorization parsed.addressed_bot_username)
      || not (allowed_for_role r.role parsed.command)
      || r.authorization.bootstrap_only && not (is_bootstrap_command r.role parsed.command)
    then ignore
    else dispatch (
        command_effect (record {
          command = parsed.command;
          chat_id = message.chat_id;
          message_id = message.message_id;
          message_thread_id = message.message_thread_id;
          root_message_id = root_message_id;
          text = text;
          actor = message.actor;
        }))

unfoldable pub route_prompt : UpdateRouter → TelegramMessage → Option ℤ → String → RoutedEffect
route_prompt r message root_message_id text =
    if r.authorization.bootstrap_only
    then ignore
    else dispatch (
        prompt_effect (record {
          chat_id = message.chat_id;
          message_id = message.message_id;
          message_thread_id = message.message_thread_id;
          text = text;
          root_message_id = root_message_id;
          actor = message.actor;
        }))

unfoldable pub route_text : UpdateRouter → TelegramMessage → Option ℤ → Option String → RoutedEffect
unfolding route_command route_prompt parse
route_text r message root_message_id none = ignore
route_text r message root_message_id (some text) =
    if is_blank text then ignore else elim (parse text) [
      | none ↦ route_prompt r message root_message_id text
      | some parsed ↦ route_command r message root_message_id text parsed
    ]

unfoldable pub route_message_effect : UpdateRouter → TelegramMessage → Option ℤ → RoutedEffect
unfolding route_text
route_message_effect r message root_message_id =
    let text = or_else message.text message.caption in
    elim (or_else message.document_file_id message.photo_file_id) [
      | none ↦ route_text r message root_message_id text
      | some file_id ↦
          if is_bootstrap r.authorization
          then ignore
          else dispatch (
              attachment_effect (record {
                chat_id = message.chat_id;
                message_id = message.message_id;
                message_thread_id = message.message_thread_id;
                caption = or_else message.caption text;
                file_id = file_id;
                file_name = message.document_file_name;
                is_photo = message.is_photo;
                root_message_id = root_message_id;
                actor = message.actor;
              }))
    ]

-- The message that a comment belongs to.
abbrev pub comment_root : TelegramMessage → Option ℤ
comment_root message = or_else message.message_thread_id (
    or_else message.reply_to_message_thread_id (
      or_else (if message.reply_to_is_automatic_forward then message.reply_to_message_id else none)
        message.reply_to_message_id))

unfoldable pub route_discussion_message : UpdateRouter → TelegramMessage → RoutedEffect
unfolding message_is_authorized route_message_effect
route_discussion_message r message =
    if message.automatic_forward_from_channel == some r.policy.linked_discussion.channel_chat_id
    then (if message_is_authorized r message true
        then dispatch (
            native_comment_post (record {
              channel_chat_id = r.policy.linked_discussion.channel_chat_id;
              channel_post_id =
                  unwrap_or message.message_id message.automatic_forward_channel_post_id;
              discussion_chat_id = message.chat_id;
              discussion_root_message_id = message.message_id;
            }))
        else ignore)
    else if message_is_authorized r message false
    then route_message_effect r message (comment_root message)
    else ignore

abbrev pub route_control_message : UpdateRouter → TelegramMessage → RoutedEffect
route_control_message r message =
    if message_is_authorized r message false then route_message_effect r message none else ignore

abbrev pub route_message_of : RuntimeBotRole → UpdateRouter → TelegramMessage → RoutedEffect
route_message_of control_bot r message = route_control_message r message
route_message_of status_bot r message = ignore
route_message_of discussion_bot r message = route_discussion_message r message
route_message_of alert_bot r message = ignore

abbrev pub takes_callbacks : RuntimeBotRole → Bool
takes_callbacks control_bot = true
takes_callbacks status_bot = true
takes_callbacks discussion_bot = true
takes_callbacks alert_bot = false

unfoldable pub route_incoming : UpdateRouter → IncomingUpdate → RoutedEffect
unfolding message_is_authorized route_message_effect route_discussion_message callback_is_authorized
    membership_is_authorized
route_incoming r (message_update message) =
    if message.chat_id == home_chat r then route_message_of r.role r message else ignore
route_incoming r (edited_message message) = ignore
route_incoming r (callback_update callback) =
    if takes_callbacks r.role
      && callback.chat_id == home_chat r
      && callback_is_authorized r callback
    then dispatch (callback_effect callback)
    else ignore
route_incoming r (membership_update membership) =
    if membership_is_authorized r membership
    then dispatch (membership_changed membership)
    else ignore
route_incoming r unsupported = ignore

unfoldable pub route_effect : (api : JsonApi) → UpdateRouter → api.Value → RoutedEffect
unfolding route_incoming from_update
route_effect api r payload = route_incoming r (from_update api payload)
