-- ===== src/Telegram/Owner.antt =====
-- rust/crates/telegram/src/lib.rs: with an owner, nobody else is heard.
use codex_telegram_bridge.Telegram.Types.{
  dispatch, TelegramActor, UpdateRoutingPolicy, WorkflowEffect, RoutedEffect, UpdateRouter,
  command_effect, prompt_effect, attachment_effect, callback_effect, native_comment_post,
  membership_changed, ignore,
}
use codex_telegram_bridge.Telegram.Routing.{route_effect}
use codex_telegram_bridge.Telegram.Permitted.{is_permitted, route_effect-permitted}
use codex_telegram_bridge.Telegram.Commands.{RuntimeBotRole, allowed_for_role}
use codex_telegram_bridge.Telegram.Authorization.{
  python_owner, allows_actor, home_chat, membership_is_authorized,
}
use codex_telegram_bridge.Prelude.Int.{ℤ, int_ord}
use codex_telegram_bridge.Prelude.{
  String, ◌≡◌, refl, Bool, true, false, ◌&&◌, none, some, arith, ◌==◌, eq_iff, string_ord, nat_ord,
  pair_ord, option_ord, list_ord,
}
use codex_telegram_bridge.Json.{JsonApi}

-- The actor is the owner in person.
abbrev IsOwnerInPerson : ℤ → TelegramActor → Type 0
IsOwnerInPerson owner actor = (actor.user_id ≡ some owner) × (actor.sender_chat_id ≡ none)

-- Who may have caused the effect: the owner in person, in the chat of the bot. A post of the linked
-- channel and a change of membership carry no command.
abbrev pub IsFromOwner : ℤ → UpdateRouter → WorkflowEffect → Type 0
IsFromOwner owner r (command_effect c) =
    IsOwnerInPerson owner c.actor
    × (c.chat_id ≡ home_chat r)
    × (allowed_for_role r.role c.command ≡ true)
IsFromOwner owner r (prompt_effect p) = IsOwnerInPerson owner p.actor × (p.chat_id ≡ home_chat r)
IsFromOwner owner r (attachment_effect a) =
    IsOwnerInPerson owner a.actor × (a.chat_id ≡ home_chat r)
IsFromOwner owner r (callback_effect c) = IsOwnerInPerson owner c.actor × (c.chat_id ≡ home_chat r)
IsFromOwner owner r (native_comment_post n) =
    (n.channel_chat_id ≡ r.policy.linked_discussion.channel_chat_id)
    × (n.discussion_chat_id ≡ home_chat r)
IsFromOwner owner r (membership_changed m) = m.chat_id ≡ home_chat r

abbrev pub AllFromOwner : ℤ → UpdateRouter → RoutedEffect → Type 0
AllFromOwner owner r (dispatch e) = IsFromOwner owner r e
AllFromOwner owner r ignore = Unit

owner_in_person :
    (owner : ℤ) (bot : String) (actor : TelegramActor)
    → allows_actor (python_owner owner bot) actor ≡ true
    → IsOwnerInPerson owner actor
unfolding allows_actor python_owner
owner_in_person owner bot actor h =
    ((eq_iff actor.user_id (some owner)).0 (ground arith), ground arith)

and_left : (a b : Bool) → (a && b) ≡ true → a ≡ true
and_left true b h = refl
and_left false b h = h

and_right : (a b : Bool) → (a && b) ≡ true → b ≡ true
and_right true b h = h
and_right false b h = absurd (ground arith)

module _ (owner : ℤ) (bot : String) (role : RuntimeBotRole) (policy : UpdateRoutingPolicy) where
  abbrev owned_router : UpdateRouter
  owned_router = record { role = role; policy = policy; authorization = python_owner owner bot }

  by_owner :
      (actor : TelegramActor) (chat : ℤ)
      → (allows_actor (python_owner owner bot) actor && (chat == home_chat owned_router)) ≡ true
      → IsOwnerInPerson owner actor × (chat ≡ home_chat owned_router)
  by_owner actor chat h = (
    owner_in_person owner bot actor (and_left _ _ h),
    (eq_iff chat (home_chat owned_router)).0 (and_right _ _ h),
  )

  permitted-from_owner :
      (e : RoutedEffect) → is_permitted owned_router e ≡ true → AllFromOwner owner owned_router e
  unfolding membership_is_authorized python_owner
  permitted-from_owner (dispatch (command_effect c)) h =
      let (who, there) = by_owner c.actor c.chat_id (ground arith) in (who, there, ground arith)
  permitted-from_owner (dispatch (prompt_effect p)) h = by_owner p.actor p.chat_id (ground arith)
  permitted-from_owner (dispatch (attachment_effect a)) h =
      by_owner a.actor a.chat_id (ground arith)
  permitted-from_owner (dispatch (callback_effect c)) h = by_owner c.actor c.chat_id (ground arith)
  permitted-from_owner (dispatch (native_comment_post n)) h = (
    (eq_iff n.channel_chat_id policy.linked_discussion.channel_chat_id).0 (ground arith),
    (eq_iff n.discussion_chat_id (home_chat owned_router)).0 (ground arith),
  )
  permitted-from_owner (dispatch (membership_changed m)) h =
      (eq_iff m.chat_id (home_chat owned_router)).0 (ground arith)
  permitted-from_owner ignore h = tt

  -- With the authorization of an owner, every command, prompt, attachment and callback that is
  -- dispatched comes from the owner in person in the chat of the bot, a command is one of the bot's,
  -- a comment post is of the linked channel, and a change of membership is of the chat of the bot.
  pub owner_only :
      (api : JsonApi) (payload : api.Value)
      → AllFromOwner owner owned_router (route_effect api owned_router payload)
  owner_only api payload =
      permitted-from_owner (route_effect api owned_router payload)
        (route_effect-permitted api owned_router payload)
