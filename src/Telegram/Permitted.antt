-- ===== src/Telegram/Permitted.antt =====
-- rust/crates/telegram/src/lib.rs: only what the authorization permits is dispatched.
use codex_telegram_bridge.Telegram.Parsing.{from_update}
use codex_telegram_bridge.Json.{JsonApi}
use codex_telegram_bridge.Telegram.Types.{
  dispatch, TelegramMessage, WorkflowEffect, RoutedEffect, UpdateRouter, command_effect,
  prompt_effect, attachment_effect, callback_effect, native_comment_post, membership_changed,
  ignore, TelegramCallback, IncomingUpdate, message_update, edited_message, callback_update,
  membership_update, unsupported,
}
use codex_telegram_bridge.Telegram.Routing.{
  route_command, route_prompt, route_text, route_message_effect, route_discussion_message,
  route_incoming, route_effect, comment_root, route_control_message, route_message_of,
}
use codex_telegram_bridge.Telegram.Commands.{
  allowed_for_role, ParsedTelegramCommand, parse, RuntimeBotRole, control_bot, status_bot,
  discussion_bot, alert_bot,
}
use codex_telegram_bridge.Telegram.Authorization.{
  allows_actor, is_bootstrap, home_chat, membership_is_authorized, is_bootstrap_command,
  message_is_authorized, callback_is_authorized,
}
use codex_telegram_bridge.Prelude.Int.{ℤ, int_ord}
use codex_telegram_bridge.Prelude.{
  String, ◌≡◌, refl, inl, inr, Bool, true, not, ◌&&◌, Option, none, some, arith, Bool-cases,
  Option-cases, or_else, is_blank, ◌==◌, string_ord, nat_ord, pair_ord, option_ord, list_ord, ◌||◌,
  false, eq_self,
}

-- What a bot may dispatch, by the effect alone.
abbrev pub may_dispatch : UpdateRouter → WorkflowEffect → Bool
may_dispatch r (command_effect c) =
    allows_actor r.authorization c.actor
    && c.chat_id == home_chat r
    && allowed_for_role r.role c.command
    && (not r.authorization.bootstrap_only || is_bootstrap_command r.role c.command)
may_dispatch r (prompt_effect p) =
    allows_actor r.authorization p.actor
    && p.chat_id == home_chat r
    && not r.authorization.bootstrap_only
may_dispatch r (attachment_effect a) =
    allows_actor r.authorization a.actor
    && a.chat_id == home_chat r
    && not (is_bootstrap r.authorization)
may_dispatch r (callback_effect c) =
    allows_actor r.authorization c.actor
    && c.chat_id == home_chat r
    && not (is_bootstrap r.authorization)
may_dispatch r (native_comment_post n) =
    n.channel_chat_id == r.policy.linked_discussion.channel_chat_id
    && n.discussion_chat_id == home_chat r
    && not (is_bootstrap r.authorization)
may_dispatch r (membership_changed m) = membership_is_authorized r m

abbrev pub is_permitted : UpdateRouter → RoutedEffect → Bool
is_permitted r (dispatch e) = may_dispatch r e
is_permitted r ignore = true

module _ (r : UpdateRouter) (message : TelegramMessage) where
  module _ (allowed : allows_actor r.authorization message.actor ≡ true)
      (home : (message.chat_id == home_chat r) ≡ true) where
    route_command-permitted :
        (root : Option ℤ) (text : String) (parsed : ParsedTelegramCommand)
        → is_permitted r (route_command r message root text parsed) ≡ true
    unfolding route_command
    route_command-permitted root text parsed = ground arith

    route_prompt-permitted :
        (root : Option ℤ) (text : String) → is_permitted r (route_prompt r message root text) ≡ true
    unfolding route_prompt
    route_prompt-permitted root text = ground arith

    route_text-permitted :
        (root : Option ℤ) (text : Option String)
        → is_permitted r (route_text r message root text) ≡ true
    unfolding route_text
    route_text-permitted root none = refl
    route_text-permitted root (some text) = elim (Bool-cases (is_blank text)) [
      | inl blank ↦ rw (blank, route_text) refl
      | inr there ↦ elim (Option-cases (parse text)) [
        | inl e ↦ rw (there, e, route_text) (route_prompt-permitted root text)
        | inr (parsed, e) ↦ rw (there, e, route_text) (route_command-permitted root text parsed)
      ]
    ]

    route_message_effect-permitted :
        (root : Option ℤ) → is_permitted r (route_message_effect r message root) ≡ true
    unfolding route_message_effect
    route_message_effect-permitted root =
        elim (Option-cases (or_else message.document_file_id message.photo_file_id)) [
          | inl e ↦
              rw (e, route_message_effect)
                (route_text-permitted root (or_else message.text message.caption))
          | inr (id, e) ↦ rw (e, route_message_effect) (ground arith)
        ]

  authorized_actor :
      message_is_authorized r message false ≡ true
      → allows_actor r.authorization message.actor ≡ true
  unfolding message_is_authorized
  authorized_actor h = ground arith

  authorized_forward :
      message_is_authorized r message true ≡ true → is_bootstrap r.authorization ≡ false
  unfolding message_is_authorized
  authorized_forward h = ground arith

  route_control_message-permitted :
      (message.chat_id == home_chat r) ≡ true
      → is_permitted r (route_control_message r message) ≡ true
  route_control_message-permitted home = elim (Bool-cases (message_is_authorized r message false)) [
    | inl ok ↦ rw ok (route_message_effect-permitted (authorized_actor ok) home none)
    | inr refused ↦ rw refused refl
  ]

  route_discussion_message-permitted :
      (message.chat_id == home_chat r) ≡ true
      → is_permitted r (route_discussion_message r message) ≡ true
  unfolding route_discussion_message
  route_discussion_message-permitted home =
      elim (Bool-cases (
        message.automatic_forward_from_channel
        == some r.policy.linked_discussion.channel_chat_id)) [
          | inl forward ↦ elim (Bool-cases (message_is_authorized r message true)) [
            | inl ok ↦
                rw (forward, ok, route_discussion_message)
                  (ground (
                    arith,
                    authorized_forward ok,
                    eq_self r.policy.linked_discussion.channel_chat_id,
                  ))
            | inr refused ↦ rw (forward, refused, route_discussion_message) refl
          ]
          | inr comment ↦ elim (Bool-cases (message_is_authorized r message false)) [
            | inl ok ↦
                rw (comment, ok, route_discussion_message)
                  (route_message_effect-permitted (authorized_actor ok) home (comment_root message))
            | inr refused ↦ rw (comment, refused, route_discussion_message) refl
          ]
        ]

  route_message_of-permitted :
      (role : RuntimeBotRole)
      → (message.chat_id == home_chat r) ≡ true
      → is_permitted r (route_message_of role r message) ≡ true
  route_message_of-permitted control_bot home = route_control_message-permitted home
  route_message_of-permitted status_bot home = refl
  route_message_of-permitted discussion_bot home = route_discussion_message-permitted home
  route_message_of-permitted alert_bot home = refl

callback_actor :
    (r : UpdateRouter) (c : TelegramCallback)
    → callback_is_authorized r c ≡ true
    → (allows_actor r.authorization c.actor && not (is_bootstrap r.authorization)) ≡ true
unfolding callback_is_authorized
callback_actor r c h = ground arith

route_incoming-permitted :
    (r : UpdateRouter) (u : IncomingUpdate) → is_permitted r (route_incoming r u) ≡ true
unfolding route_incoming
route_incoming-permitted r (message_update m) = elim (Bool-cases (m.chat_id == home_chat r)) [
  | inl home ↦ rw (home, route_incoming) (route_message_of-permitted r m r.role home)
  | inr away ↦ rw (away, route_incoming) refl
]
route_incoming-permitted r (edited_message m) = refl
route_incoming-permitted r (callback_update c) = ground (arith, callback_actor r c)
route_incoming-permitted r (membership_update m) = ground arith
route_incoming-permitted r unsupported = refl

-- Whatever the update, the router dispatches only what the authorization permits: commands, prompts,
-- attachments and callbacks come from a permitted actor in the chat of the bot, a command is one of
-- the bot's, a comment post is of the linked channel, and nothing but a command that names an owner
-- passes before there is one.
pub route_effect-permitted :
    (api : JsonApi) (r : UpdateRouter) (payload : api.Value)
    → is_permitted r (route_effect api r payload) ≡ true
unfolding route_effect
route_effect-permitted api r payload = route_incoming-permitted r (from_update api payload)
