-- ===== src/Telegram/Bootstrap.antt =====
-- rust/crates/telegram/src/lib.rs: before there is an owner.
use codex_telegram_bridge.Telegram.Types.{
  dispatch, RoutedEffect, UpdateRouter, command_effect, prompt_effect, attachment_effect,
  callback_effect, native_comment_post, membership_changed, ignore,
}
use codex_telegram_bridge.Telegram.Routing.{route_effect}
use codex_telegram_bridge.Telegram.Permitted.{is_permitted, route_effect-permitted}
use codex_telegram_bridge.Telegram.Commands.{RuntimeBotRole}
use codex_telegram_bridge.Telegram.Authorization.{is_bootstrap_command}
use codex_telegram_bridge.Prelude.Int.{int_ord}
use codex_telegram_bridge.Prelude.{
  ◌≡◌, true, none, arith, string_ord, nat_ord, pair_ord, option_ord, list_ord,
}
use codex_telegram_bridge.Json.{JsonApi}

-- Nothing but the commands that name an owner, and changes of membership.
abbrev pub IsForBootstrap : RuntimeBotRole → RoutedEffect → Type 0
IsForBootstrap role (dispatch (command_effect c)) = is_bootstrap_command role c.command ≡ true
IsForBootstrap role (dispatch (prompt_effect p)) = ⊥
IsForBootstrap role (dispatch (attachment_effect a)) = ⊥
IsForBootstrap role (dispatch (callback_effect c)) = ⊥
IsForBootstrap role (dispatch (native_comment_post n)) = ⊥
IsForBootstrap role (dispatch (membership_changed m)) = Unit
IsForBootstrap role ignore = Unit

module _ (r : UpdateRouter) where
  permitted-bootstrap :
      (e : RoutedEffect)
      → r.authorization.bootstrap_only ≡ true
      → r.authorization.owner_user_id ≡ none
      → is_permitted r e ≡ true
      → IsForBootstrap r.role e
  permitted-bootstrap (dispatch (command_effect c)) b n h = ground arith
  permitted-bootstrap (dispatch (prompt_effect p)) b n h = ground arith
  permitted-bootstrap (dispatch (attachment_effect a)) b n h = ground arith
  permitted-bootstrap (dispatch (callback_effect c)) b n h = ground arith
  permitted-bootstrap (dispatch (native_comment_post p)) b n h = ground arith
  permitted-bootstrap (dispatch (membership_changed m)) b n h = tt
  permitted-bootstrap ignore b n h = tt

  -- While there is no owner and only the bootstrap may pass, whatever the update, the router
  -- dispatches nothing but the commands that name an owner (pair or bind, and help) and changes of
  -- membership.
  pub bootstrap_only_lem :
      (api : JsonApi) (payload : api.Value)
      → r.authorization.bootstrap_only ≡ true
      → r.authorization.owner_user_id ≡ none
      → IsForBootstrap r.role (route_effect api r payload)
  bootstrap_only_lem api payload b n =
      permitted-bootstrap (route_effect api r payload) b n (route_effect-permitted api r payload)
