-- ===== src/Telegram/Parsing.antt =====
-- rust/crates/telegram/src/lib.rs: what is read of an update. `payload` is the update's JSON.
use codex_telegram_bridge.Telegram.Types.{
  TelegramChatKind, from_api, TelegramMessage, TelegramCallback, TelegramMembership, IncomingUpdate,
  message_update, edited_message, callback_update, membership_update, unsupported,
}
use codex_telegram_bridge.Prelude.Int.{ℤ, int_ord}
use codex_telegram_bridge.Prelude.{
  String, Bool, true, false, Option, none, List, [], ◌∷◌, if◌then◌else◌, ◌>>=◌, unwrap_or,
  string_ord, nat_ord, pair_ord, option_ord, list_ord, some, or_else,
}
use codex_telegram_bridge.Json.{JsonApi, text_of, integer_of, get_either}

module _ (api : JsonApi) where
  open api use {Value, get as field, pointer, as_str, as_bool, as_i64, as_array}

  abbrev integer_at : String → Value → Option ℤ
  integer_at path value = pointer path value >>= as_i64

  abbrev text_at : String → Value → Option String
  text_at path value = pointer path value >>= as_str

  abbrev last_of : List Value → Option Value
  last_of [] = none
  last_of (v ∷ vs) = or_else (last_of vs) (some v)

  abbrev has_any : List Value → Bool
  has_any [] = false
  has_any (v ∷ vs) = true

  -- The flag is there and is true.
  abbrev is_automatic_forward : Value → Bool
  is_automatic_forward value = unwrap_or false (field "is_automatic_forward" value >>= as_bool)

  abbrev when_forwarded : Value → Option ℤ → Option ℤ
  when_forwarded value n = if is_automatic_forward value then n else none

  abbrev chat_kind_at : String → Value → TelegramChatKind
  chat_kind_at path value = from_api (text_at path value)

  abbrev message_from : Value → ℤ → ℤ → TelegramMessage
  message_from value chat_id message_id = record {
    chat_id = chat_id;
    chat_kind = chat_kind_at "/chat/type" value;
    message_id = message_id;
    text = get_either api "text" "caption" value >>= as_str;
    caption = text_of api "caption" value;
    document_file_id = text_at "/document/file_id" value;
    document_file_name = text_at "/document/file_name" value;
    photo_file_id = field "photo" value >>= as_array >>= last_of >>= text_of api "file_id";
    is_photo =
        unwrap_or false (field "photo" value >>= as_array >>= λ photos. some (has_any photos));
    actor = record {
      user_id = integer_at "/from/id" value;
      sender_chat_id = integer_at "/sender_chat/id" value;
    };
    reply_to_message_id = integer_at "/reply_to_message/message_id" value;
    reply_to_message_thread_id = integer_at "/reply_to_message/message_thread_id" value;
    reply_to_is_automatic_forward =
        unwrap_or false (pointer "/reply_to_message/is_automatic_forward" value >>= as_bool);
    message_thread_id = integer_of api "message_thread_id" value;
    automatic_forward_from_channel = when_forwarded value (
        or_else (pointer "/sender_chat/id" value) (pointer "/forward_from_chat/id" value)
        >>= as_i64);
    automatic_forward_channel_post_id =
        when_forwarded value (integer_of api "forward_from_message_id" value);
  }

  unfoldable pub parse_message : Value → Option TelegramMessage
  parse_message value = integer_at "/chat/id" value >>= λ chat_id.
      integer_of api "message_id" value >>= λ message_id.
      some (message_from value chat_id message_id)

  unfoldable pub parse_callback : Value → Option TelegramCallback
  parse_callback value = text_of api "id" value >>= λ id.
      integer_at "/message/chat/id" value >>= λ chat_id.
      integer_at "/message/message_id" value >>= λ message_id.
      text_of api "data" value >>= λ data_text. some (record {
        id = id;
        chat_id = chat_id;
        chat_kind = chat_kind_at "/message/chat/type" value;
        message_id = message_id;
        data_text = data_text;
        actor = record { user_id = integer_at "/from/id" value; sender_chat_id = none };
      })

  unfoldable pub parse_membership : Value → Option TelegramMembership
  parse_membership value = integer_at "/chat/id" value >>= λ chat_id. some (record {
    chat_id = chat_id;
    chat_kind = chat_kind_at "/chat/type" value;
    actor = record { user_id = integer_at "/from/id" value; sender_chat_id = none };
  })

  abbrev or_next : Option IncomingUpdate → IncomingUpdate → IncomingUpdate
  or_next none rest = rest
  or_next (some u) rest = u

  unfoldable pub from_update : Value → IncomingUpdate
  unfolding parse_message parse_callback parse_membership
  from_update payload =
      or_next (field "message" payload >>= parse_message >>= λ m. some (message_update m)) (
        or_next (field "edited_message" payload >>= parse_message >>= λ m. some (edited_message m))
          (or_next
            (field "callback_query" payload >>= parse_callback >>= λ c. some (callback_update c))
            (or_next
              (field "my_chat_member" payload >>= parse_membership >>= λ m.
                some (membership_update m))
              unsupported)))
