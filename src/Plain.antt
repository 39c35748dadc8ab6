-- ===== src/Plain.antt =====
-- JSON values of a plain kind, which the tests run on.
use Prim.Native.Char.{code}
use codex_telegram_bridge.Prelude.Int.{ℤ, int_ord, pos, negsuc}
use codex_telegram_bridge.Prelude.{
  String, Bool, Option, none, some, List, [], ◌∷◌, if◌then◌else◌, ◌>>=◌, ◌==◌, string_ord, nat_ord,
  pair_ord, option_ord, list_ord, true, false, not, ◌&&◌, ℕ, then,
}
use codex_telegram_bridge.Json.{JsonApi}
use codex_telegram_bridge.Prelude.Map.{get as lookup, insert}
pub mod Laws

mutual
  pub data Json : Type 0 where
    text : String → Json
    number : ℤ → Json
    flag : Bool → Json
    array : Jsons → Json
    dict : Fields → Json

  pub data Jsons : Type 0 where
    no_values : Jsons
    value_and : Json → Jsons → Jsons

  pub data Fields : Type 0 where
    no_fields : Fields
    field_and : String → Json → Fields → Fields

abbrev pub elements : Jsons → List Json
elements no_values = []
elements (value_and v vs) = v ∷ elements vs

abbrev pub members : Fields → List (String × Json)
members no_fields = []
members (field_and k v fs) = (k, v) ∷ members fs

abbrev pub from_members : List (String × Json) → Fields
from_members [] = no_fields
from_members ((k, v) ∷ fs) = field_and k v (from_members fs)

abbrev pub dict_get : String → Json → Option Json
dict_get key (dict fs) = lookup key (record { entries = members fs })
dict_get key (text s) = none
dict_get key (number n) = none
dict_get key (flag b) = none
dict_get key (array vs) = none

-- The parts of a path between its slashes.
abbrev segments : String → String × List String
segments String.[] = ("", [])
segments (String.◌∷◌ c s) =
    let (w, ws) = segments s in if code c == 47 then ("", w ∷ ws) else (String.◌∷◌ c w, ws)

abbrev walk : List String → Json → Option Json
walk [] v = some v
walk (key ∷ path) v = dict_get key v >>= walk path

abbrev pub pointer_to : String → Json → Option Json
pointer_to path v = walk (segments path).1 v

abbrev pub text_in : Json → Option String
text_in (text s) = some s
text_in (dict fs) = none
text_in (number n) = none
text_in (flag b) = none
text_in (array vs) = none

abbrev pub flag_in : Json → Option Bool
flag_in (flag b) = some b
flag_in (text s) = none
flag_in (dict fs) = none
flag_in (number n) = none
flag_in (array vs) = none

abbrev pub number_in : Json → Option ℤ
number_in (number n) = some n
number_in (text s) = none
number_in (dict fs) = none
number_in (flag b) = none
number_in (array vs) = none

abbrev pub natural_in : Json → Option ℕ
natural_in v = number_in v >>= λ n. elim n [ pos m ↦ some m | negsuc m ↦ none ]

abbrev pub array_in : Json → Option (List Json)
array_in (array vs) = some (elements vs)
array_in (text s) = none
array_in (dict fs) = none
array_in (flag b) = none
array_in (number n) = none

abbrev pub dict_in : Json → Option (List (String × Json))
dict_in (dict fs) = some (members fs)
dict_in (text s) = none
dict_in (array vs) = none
dict_in (flag b) = none
dict_in (number n) = none

abbrev pub to_values : List Json → Jsons
to_values [] = no_values
to_values (v ∷ vs) = value_and v (to_values vs)

abbrev pub same_flag : Bool → Bool → Bool
same_flag true b = b
same_flag false b = not b

abbrev mutual
  pub same_json : Json → Json → Bool
  same_json (text s) w = elim w [ text t ↦ s == t | _ ↦ false ]
  same_json (number n) w = elim w [ number m ↦ n == m | _ ↦ false ]
  same_json (flag b) w = elim w [ flag c ↦ same_flag b c | _ ↦ false ]
  same_json (array vs) w = elim w [ array ws ↦ same_values vs ws | _ ↦ false ]
  same_json (dict fs) w = elim w [ dict gs ↦ same_fields fs gs | _ ↦ false ]

  pub same_values : Jsons → Jsons → Bool
  same_values no_values ws = elim ws [ no_values ↦ true | _ ↦ false ]
  same_values (value_and v vs) ws = elim ws [
    | no_values ↦ false
    | value_and w us ↦ same_json v w && same_values vs us
  ]

  pub same_fields : Fields → Fields → Bool
  same_fields no_fields gs = elim gs [ no_fields ↦ true | _ ↦ false ]
  same_fields (field_and k v fs) gs = elim gs [
    | no_fields ↦ false
    | field_and j w hs ↦ k == j && same_json v w && same_fields fs hs
  ]

abbrev put_in : String → Json → Json → Json
put_in key v (dict fs) =
    dict (from_members (insert key v (record { entries = members fs })).entries)
put_in key v (text s) = text s
put_in key v (number n) = number n
put_in key v (flag b) = flag b
put_in key v (array vs) = array vs

abbrev pub plain : JsonApi
plain = record {
  Value = Json;
  get = dict_get;
  pointer = pointer_to;
  as_str = text_in;
  as_bool = flag_in;
  as_i64 = number_in;
  as_u64 = natural_in;
  as_array = array_in;
  as_object = dict_in;
  string = text;
  integer = number;
  object = λ fs. dict (from_members fs);
  array = λ vs. array (to_values vs);
  equal = same_json;
  put = put_in;
}
