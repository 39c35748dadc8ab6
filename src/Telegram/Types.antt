-- ===== src/Telegram/Types.antt =====
-- rust/crates/telegram/src/lib.rs: updates, and what they are routed to.
use codex_telegram_bridge.Telegram.Commands.{RuntimeBotRole, TelegramCommand}
use codex_telegram_bridge.Prelude.Int.{ℤ, is_negative, int_ord}
use codex_telegram_bridge.Prelude.{
  String, Bool, true, false, not, Option, none, some, if◌then◌else◌, has_some, Outcome, success,
  failure, ◌==◌, string_ord, nat_ord, pair_ord, option_ord, list_ord, ◌||◌,
}

pub data TelegramChatKind : Type 0 where
  private_chat group supergroup channel unknown_kind : TelegramChatKind

abbrev pub from_api : Option String → TelegramChatKind
from_api none = unknown_kind
from_api (some value) =
    if value == "private"
    then private_chat
    else if value == "group"
    then group
    else if value == "supergroup"
    then supergroup
    else if value == "channel"
    then channel
    else unknown_kind

abbrev pub is_private : TelegramChatKind → Bool
is_private private_chat = true
is_private group = false
is_private supergroup = false
is_private channel = false
is_private unknown_kind = false

abbrev pub is_supergroup : TelegramChatKind → Bool
is_supergroup private_chat = false
is_supergroup group = false
is_supergroup supergroup = true
is_supergroup channel = false
is_supergroup unknown_kind = false

pub record TelegramActor : Type 0 where
  pub user_id : Option ℤ
  pub sender_chat_id : Option ℤ

abbrev pub is_personal : TelegramActor → Bool
is_personal actor = not (has_some actor.sender_chat_id)

pub data RoutingError : Type 0 where
  invalid_topology alert_bot_must_not_poll : RoutingError

pub record LinkedDiscussion : Type 0 where
  pub channel_chat_id : ℤ
  pub discussion_chat_id : ℤ

unfoldable pub new_linked_discussion : ℤ → ℤ → Outcome RoutingError LinkedDiscussion
new_linked_discussion channel_chat_id discussion_chat_id =
    if not (is_negative channel_chat_id) || not (is_negative discussion_chat_id)
    then failure invalid_topology
    else success
        (record { channel_chat_id = channel_chat_id; discussion_chat_id = discussion_chat_id })

pub record UpdateRoutingPolicy : Type 0 where
  pub control_owner_chat_id : ℤ
  pub linked_discussion : LinkedDiscussion

pub record TelegramMessage : Type 0 where
  pub chat_id : ℤ
  pub chat_kind : TelegramChatKind
  pub message_id : ℤ
  pub text : Option String
  pub caption : Option String
  pub document_file_id : Option String
  pub document_file_name : Option String
  pub photo_file_id : Option String
  pub is_photo : Bool
  pub actor : TelegramActor
  pub reply_to_message_id : Option ℤ
  pub reply_to_message_thread_id : Option ℤ
  pub reply_to_is_automatic_forward : Bool
  pub message_thread_id : Option ℤ
  pub automatic_forward_from_channel : Option ℤ
  pub automatic_forward_channel_post_id : Option ℤ

pub record TelegramCallback : Type 0 where
  pub id : String
  pub chat_id : ℤ
  pub chat_kind : TelegramChatKind
  pub message_id : ℤ
  pub data_text : String
  pub actor : TelegramActor

pub record TelegramMembership : Type 0 where
  pub chat_id : ℤ
  pub chat_kind : TelegramChatKind
  pub actor : TelegramActor

pub data IncomingUpdate : Type 0 where
  message_update edited_message : TelegramMessage → IncomingUpdate
  callback_update : TelegramCallback → IncomingUpdate
  membership_update : TelegramMembership → IncomingUpdate
  unsupported : IncomingUpdate

pub record CommandEffect : Type 0 where
  pub command : TelegramCommand
  pub chat_id : ℤ
  pub message_id : ℤ
  pub message_thread_id : Option ℤ
  pub root_message_id : Option ℤ
  pub text : String
  pub actor : TelegramActor

pub record PromptEffect : Type 0 where
  pub chat_id : ℤ
  pub message_id : ℤ
  pub message_thread_id : Option ℤ
  pub text : String
  pub root_message_id : Option ℤ
  pub actor : TelegramActor

pub record AttachmentEffect : Type 0 where
  pub chat_id : ℤ
  pub message_id : ℤ
  pub message_thread_id : Option ℤ
  pub caption : Option String
  pub file_id : String
  pub file_name : Option String
  pub is_photo : Bool
  pub root_message_id : Option ℤ
  pub actor : TelegramActor

pub record NativeCommentPost : Type 0 where
  pub channel_chat_id : ℤ
  pub channel_post_id : ℤ
  pub discussion_chat_id : ℤ
  pub discussion_root_message_id : ℤ

pub data WorkflowEffect : Type 0 where
  command_effect : CommandEffect → WorkflowEffect
  prompt_effect : PromptEffect → WorkflowEffect
  attachment_effect : AttachmentEffect → WorkflowEffect
  callback_effect : TelegramCallback → WorkflowEffect
  native_comment_post : NativeCommentPost → WorkflowEffect
  membership_changed : TelegramMembership → WorkflowEffect

pub data RoutedEffect : Type 0 where
  dispatch : WorkflowEffect → RoutedEffect
  ignore : RoutedEffect

pub record UpdateAuthorization : Type 0 where
  pub owner_user_id : Option ℤ
  pub bot_username : Option String
  pub enforce_chat_kind : Bool
  pub reject_sender_chat : Bool
  pub bootstrap_only : Bool

pub record UpdateRouter : Type 0 where
  pub role : RuntimeBotRole
  pub policy : UpdateRoutingPolicy
  pub authorization : UpdateAuthorization
