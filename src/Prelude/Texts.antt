-- ===== src/Prelude/Texts.antt =====
-- Operations of `str` that give texts: `split_whitespace`, `join`, `chars().take`, and `contains`.
use Prim.Native.Nat.{ℕ, zero, suc, ◌-◌}
use Prim.Native.Char.{Char, code}
use Prim.Native.String.{String, ◌++◌}
use mathlib.Core.Bool.{Bool, true, false, ◌&&◌, ◌||◌}
use mathlib.Core.Option.{Option, none, some}
use mathlib.Core.List.{List, [], ◌∷◌}
use codex_telegram_bridge.Prelude.Tests.{leb, if◌then◌else◌}
use codex_telegram_bridge.Prelude.Order.{◌==◌, nat_ord, string_ord}
use codex_telegram_bridge.Prelude.Words.{is_whitespace}

abbrev pub take_chars : ℕ → String → String
take_chars zero s = ""
take_chars (suc n) String.[] = ""
take_chars (suc n) (String.◌∷◌ c s) = String.◌∷◌ c (take_chars n s)

abbrev push_word : String → List String → List String
push_word String.[] ws = ws
push_word (String.◌∷◌ c s) ws = String.◌∷◌ c s ∷ ws

-- The word that the text starts with, which may be empty, and the words after it.
abbrev first_word : String → String × List String
first_word String.[] = ("", [])
first_word (String.◌∷◌ c s) =
    let (w, ws) = first_word s in
    if is_whitespace (code c) then ("", push_word w ws) else (String.◌∷◌ c w, ws)

abbrev pub split_whitespace : String → List String
split_whitespace s = let (w, ws) = first_word s in push_word w ws

-- `join(" ")`.
abbrev pub join_words : List String → String
join_words [] = ""
join_words (w ∷ ws) = elim ws [ [] ↦ w | _ ∷ _ ↦ w ++ (" " ++ join_words ws) ]

abbrev is_prefix : List ℕ → List ℕ → Bool
is_prefix [] cs = true
is_prefix (d ∷ ds) [] = false
is_prefix (d ∷ ds) (c ∷ cs) = d == c && is_prefix ds cs

-- `str::contains`, on code points.
abbrev pub contains_text : List ℕ → List ℕ → Bool
contains_text part [] = is_prefix part []
contains_text part (c ∷ cs) = is_prefix part (c ∷ cs) || contains_text part cs

abbrev nth_char : ℕ → Char → String → Char
nth_char n default String.[] = default
nth_char zero default (String.◌∷◌ c s) = c
nth_char (suc n) default (String.◌∷◌ c s) = nth_char n default s

abbrev lower_char : Char → Char
lower_char c =
    if leb 65 (code c) && leb (code c) 90
    then nth_char (code c - 65) c "abcdefghijklmnopqrstuvwxyz"
    else c

-- `str::to_ascii_lowercase`.
unfoldable pub lowercase : String → String
lowercase String.[] = ""
lowercase (String.◌∷◌ c s) = String.◌∷◌ (lower_char c) (lowercase s)

-- `strip_prefix` of one character.
abbrev pub strip_char : ℕ → String → Option String
strip_char d String.[] = none
strip_char d (String.◌∷◌ c s) = if code c == d then some s else none

-- `split_once` at one character.
abbrev pub split_once : ℕ → String → Option (String × String)
split_once d String.[] = none
split_once d (String.◌∷◌ c s) =
    let rest = split_once d s in
    if code c == d
    then some ("", s)
    else elim rest [ none ↦ none | some (a, b) ↦ some (String.◌∷◌ c a, b) ]

abbrev trim_front : String → String
trim_front String.[] = ""
trim_front (String.◌∷◌ c s) =
    let rest = trim_front s in if is_whitespace (code c) then rest else String.◌∷◌ c s

abbrev trim_back : String → String
trim_back String.[] = ""
trim_back (String.◌∷◌ c s) =
    let rest = trim_back s in if is_whitespace (code c) && rest == "" then "" else String.◌∷◌ c rest

-- `str::trim`.
abbrev pub trimmed : String → String
trimmed s = trim_back (trim_front s)
