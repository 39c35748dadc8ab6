-- ===== src/Telegram/Tests.antt =====
-- The theorems on the router at a concrete bot and a concrete message.
use codex_telegram_bridge.Prelude.Map.{get}
use codex_telegram_bridge.Telegram.Types.{
  dispatch, UpdateRoutingPolicy, RoutedEffect, UpdateRouter, ignore,
}
use codex_telegram_bridge.Telegram.Routing.{route_effect}
use codex_telegram_bridge.Telegram.Owner.{AllFromOwner, owner_only}
use codex_telegram_bridge.Telegram.Names.{parse-name}
use codex_telegram_bridge.Telegram.Commands.{name, control_bot, plan_mode, parse}
use codex_telegram_bridge.Telegram.Bootstrap.{IsForBootstrap, bootstrap_only_lem}
use codex_telegram_bridge.Telegram.Authorization.{python_owner}
use codex_telegram_bridge.Prelude.Int.{pos, negsuc, int_ord}
use codex_telegram_bridge.Prelude.{
  ℕ, String, ◌≡◌, refl, Bool, true, false, none, some, string_ord, nat_ord, pair_ord, option_ord,
  list_ord, is_blank,
}
use codex_telegram_bridge.Plain.{Json, plain, text, number, dict, no_fields, field_and}
use Prim.Native.String.{◌++◌}

abbrev policy : UpdateRoutingPolicy
policy = record {
  control_owner_chat_id = pos 5;
  linked_discussion = record { channel_chat_id = negsuc 9; discussion_chat_id = negsuc 8 };
}

abbrev message_of : ℕ → String → Json
message_of sender text_sent = dict (
    field_and "message"
      (dict (
        field_and "message_id" (number (pos 1)) (
          field_and "text" (text text_sent) (
            field_and "from" (dict (field_and "id" (number (pos sender)) no_fields)) (
              field_and "chat"
                (dict
                  (field_and "id" (number (pos 5)) (field_and "type" (text "private") no_fields)))
                no_fields)))))
      no_fields)

abbrev control_router : UpdateRouter
control_router = record {
  role = control_bot;
  policy = policy;
  authorization = python_owner (pos 7) "Bridge";
}

abbrev is_dispatched : RoutedEffect → Bool
is_dispatched (dispatch e) = true
is_dispatched ignore = false

owner_is_heard :
    is_dispatched (route_effect plain control_router (message_of 7 "/new@bridge x")) ≡ true
unfolding route_effect get python_owner is_blank
owner_is_heard = refl

stranger_is_not : is_dispatched (route_effect plain control_router (message_of 8 "/new x")) ≡ false
unfolding route_effect get python_owner
stranger_is_not = refl

owner_only_example :
    AllFromOwner (pos 7) control_router (route_effect plain control_router (message_of 7 "/new x"))
owner_only_example = owner_only (pos 7) "Bridge" control_bot policy plain (message_of 7 "/new x")

abbrev ownerless : UpdateRouter
ownerless = record control_router {
  authorization = record {
    owner_user_id = none;
    bot_username = none;
    enforce_chat_kind = true;
    reject_sender_chat = true;
    bootstrap_only = true;
  };
}

bootstrap_only_lem_example :
    IsForBootstrap control_bot (route_effect plain ownerless (message_of 3 "/pair 123"))
bootstrap_only_lem_example = bootstrap_only_lem ownerless plain (message_of 3 "/pair 123") refl refl

parse-name_example :
    parse ("/" ++ name plan_mode)
    ≡ some (record { command = plan_mode; addressed_bot_username = none })
parse-name_example = parse-name plan_mode refl
