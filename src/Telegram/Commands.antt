-- ===== src/Telegram/Commands.antt =====
-- rust/crates/telegram/src/lib.rs: the vocabulary of commands, and which bot takes which.
use codex_telegram_bridge.Prelude.Int.{int_ord}
use codex_telegram_bridge.Prelude.{
  String, Bool, true, false, Option, none, some, List, [], ◌∷◌, if◌then◌else◌, ◌>>=◌,
  split_whitespace, lowercase, strip_char, split_once, ◌==◌, string_ord, nat_ord, pair_ord,
  option_ord, list_ord,
}

pub data RuntimeBotRole : Type 0 where
  control_bot status_bot discussion_bot alert_bot : RuntimeBotRole

abbrev pub polls_updates : RuntimeBotRole → Bool
polls_updates control_bot = true
polls_updates status_bot = true
polls_updates discussion_bot = true
polls_updates alert_bot = false

pub data TelegramCommand : Type 0 where
  pair bind new totp lock status perf help sessions topics prompt ask queue plan_mode change_model
        plan timeline attach get_file unwatch review answer cancel :
      TelegramCommand
  unknown : String → TelegramCommand

abbrev pub name : TelegramCommand → String
name pair = "pair"
name bind = "bind"
name new = "new"
name totp = "totp"
name lock = "lock"
name status = "status"
name perf = "perf"
name help = "help"
name sessions = "sessions"
name topics = "topics"
name prompt = "prompt"
name ask = "ask"
name queue = "queue"
name plan_mode = "planmode"
name change_model = "changemodel"
name plan = "plan"
name timeline = "timeline"
name attach = "attach"
name get_file = "getfile"
name unwatch = "unwatch"
name review = "review"
name answer = "answer"
name cancel = "cancel"
name (unknown value) = value

abbrev pub command_names : List (String × TelegramCommand)
command_names =
    ("pair", pair)
    ∷ ("bind", bind)
    ∷ ("new", new)
    ∷ ("totp", totp)
    ∷ ("lock", lock)
    ∷ ("status", status)
    ∷ ("perf", perf)
    ∷ ("help", help)
    ∷ ("start", help)
    ∷ ("sessions", sessions)
    ∷ ("topics", topics)
    ∷ ("prompt", prompt)
    ∷ ("ask", ask)
    ∷ ("queue", queue)
    ∷ ("planmode", plan_mode)
    ∷ ("changemodel", change_model)
    ∷ ("plan", plan)
    ∷ ("timeline", timeline)
    ∷ ("attach", attach)
    ∷ ("getfile", get_file)
    ∷ ("unwatch", unwatch)
    ∷ ("review", review)
    ∷ ("answer", answer)
    ∷ ("cancel", cancel)
    ∷ []

abbrev pub named : String → List (String × TelegramCommand) → TelegramCommand
named value [] = unknown value
named value ((text, command) ∷ rest) = if text == value then command else named value rest

unfoldable pub parse_name : String → TelegramCommand
parse_name value = named value command_names

-- The first table is the control bot's, the second the discussion bot's.
abbrev pub control_allows : TelegramCommand → Bool
control_allows pair = true
control_allows bind = false
control_allows new = true
control_allows totp = false
control_allows lock = false
control_allows status = false
control_allows perf = true
control_allows help = true
control_allows sessions = true
control_allows topics = true
control_allows prompt = false
control_allows ask = false
control_allows queue = false
control_allows plan_mode = false
control_allows change_model = false
control_allows plan = false
control_allows timeline = false
control_allows attach = false
control_allows get_file = false
control_allows unwatch = false
control_allows review = false
control_allows answer = false
control_allows cancel = false
control_allows (unknown value) = true

abbrev pub discussion_allows : TelegramCommand → Bool
discussion_allows pair = false
discussion_allows bind = true
discussion_allows new = false
discussion_allows totp = true
discussion_allows lock = true
discussion_allows status = true
discussion_allows perf = false
discussion_allows help = true
discussion_allows sessions = false
discussion_allows topics = false
discussion_allows prompt = true
discussion_allows ask = true
discussion_allows queue = true
discussion_allows plan_mode = true
discussion_allows change_model = true
discussion_allows plan = true
discussion_allows timeline = true
discussion_allows attach = true
discussion_allows get_file = true
discussion_allows unwatch = true
discussion_allows review = true
discussion_allows answer = true
discussion_allows cancel = true
discussion_allows (unknown value) = true

unfoldable pub allowed_for_role : RuntimeBotRole → TelegramCommand → Bool
allowed_for_role control_bot command = control_allows command
allowed_for_role discussion_bot command = discussion_allows command
allowed_for_role status_bot command = false
allowed_for_role alert_bot command = false

pub record ParsedTelegramCommand : Type 0 where
  pub command : TelegramCommand
  pub addressed_bot_username : Option String

abbrev parsed_as : String → Option String → Option ParsedTelegramCommand
parsed_as value target =
    if value == ""
    then none
    else some (record { command = parse_name (lowercase value); addressed_bot_username = target })

-- The name before `@`, and whom it is for.
abbrev parse_value : String → Option ParsedTelegramCommand
parse_value value = elim (split_once 64 value) [
  | none ↦ parsed_as value none
  | some (before, target) ↦
      parsed_as before (if target == "" then none else some (lowercase target))
]

abbrev first_of : List String → Option String
first_of [] = none
first_of (w ∷ ws) = some w

unfoldable pub parse : String → Option ParsedTelegramCommand
unfolding parse_name lowercase
parse text = first_of (split_whitespace text) >>= strip_char 47 >>= parse_value
