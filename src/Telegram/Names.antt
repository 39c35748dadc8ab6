-- ===== src/Telegram/Names.antt =====
-- rust/crates/telegram/src/lib.rs: a command is read back from its name.
use codex_telegram_bridge.Telegram.Commands.{
  status, prompt, lock, sessions, answer, new, unknown, queue, plan, TelegramCommand, name,
  parse_name, parse, pair, bind, totp, perf, help, topics, ask, plan_mode, change_model, timeline,
  attach, get_file, unwatch, review, cancel,
}
use codex_telegram_bridge.Prelude.Int.{int_ord}
use codex_telegram_bridge.Prelude.{
  ◌≡◌, refl, Bool, true, false, none, some, arith, is_whitespace, lowercase, string_ord, nat_ord,
  pair_ord, option_ord, list_ord,
}
use Prim.Native.String.{◌++◌}

abbrev pub is_known_command : TelegramCommand → Bool
is_known_command pair = true
is_known_command bind = true
is_known_command new = true
is_known_command totp = true
is_known_command lock = true
is_known_command status = true
is_known_command perf = true
is_known_command help = true
is_known_command sessions = true
is_known_command topics = true
is_known_command prompt = true
is_known_command ask = true
is_known_command queue = true
is_known_command plan_mode = true
is_known_command change_model = true
is_known_command plan = true
is_known_command timeline = true
is_known_command attach = true
is_known_command get_file = true
is_known_command unwatch = true
is_known_command review = true
is_known_command answer = true
is_known_command cancel = true
is_known_command (unknown value) = false

-- The text of a command, a slash and its name, reads as that command, for no bot in particular; the
-- command is one that the program knows.
pub parse-name :
    (command : TelegramCommand)
    → is_known_command command ≡ true
    → parse ("/" ++ name command)
      ≡ some (record { command = command; addressed_bot_username = none })
unfolding parse parse_name lowercase is_whitespace
parse-name pair h = refl
parse-name bind h = refl
parse-name new h = refl
parse-name totp h = refl
parse-name lock h = refl
parse-name status h = refl
parse-name perf h = refl
parse-name help h = refl
parse-name sessions h = refl
parse-name topics h = refl
parse-name prompt h = refl
parse-name ask h = refl
parse-name queue h = refl
parse-name plan_mode h = refl
parse-name change_model h = refl
parse-name plan h = refl
parse-name timeline h = refl
parse-name attach h = refl
parse-name get_file h = refl
parse-name unwatch h = refl
parse-name review h = refl
parse-name answer h = refl
parse-name cancel h = refl
parse-name (unknown value) h = absurd (ground arith)
