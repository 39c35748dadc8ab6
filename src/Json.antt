-- ===== src/Json.antt =====
-- `serde_json::Value`, which the Rust code only calls, is a parameter: its type, its readers, the kinds
-- of value that the code builds, and `==`.
use codex_telegram_bridge.Prelude.Map.{values, firsts, Distinct, get_entry}
use codex_telegram_bridge.Prelude.{
  Bool, String, Option, none, some, List, [], ◌∷◌, or_else, ◌>>=◌, string_ord, nat_ord, pair_ord,
  option_ord, list_ord, ℕ, ◌≡◌, true, has_some,
}
use codex_telegram_bridge.Prelude.Int.{ℤ, int_ord}

pub record JsonApi : Type 1 where
  pub Value : Type 0
  pub get : String → Value → Option Value
  pub pointer : String → Value → Option Value
  pub as_str : Value → Option String
  pub as_bool : Value → Option Bool
  pub as_i64 : Value → Option ℤ
  pub as_u64 : Value → Option ℕ
  pub as_array : Value → Option (List Value)
  pub as_object : Value → Option (List (String × Value))
  pub string : String → Value
  pub integer : ℤ → Value
  pub object : List (String × Value) → Value
  pub array : List Value → Value
  pub equal : Value → Value → Bool
  -- `Map::insert` in an object; another value stays.
  pub put : String → Value → Value → Value

module _ (api : JsonApi) where
  open api use {Value, get, as_str, as_i64}

  -- `value.get(name).and_then(Value::as_str)`.
  abbrev pub text_of : String → Value → Option String
  text_of name value = get name value >>= as_str

  abbrev pub integer_of : String → Value → Option ℤ
  integer_of name value = get name value >>= as_i64

  -- `value.get(a).or_else(|| value.get(b))`.
  abbrev pub get_either : String → String → Value → Option Value
  get_either a b value = or_else (get a value) (get b value)

  -- `find_map` of a text over names.
  abbrev pub first_text : List String → Value → Option String
  first_text [] value = none
  first_text (name ∷ names) value = or_else (text_of name value) (first_text names value)

  -- `filter_map(Value::as_str)`.
  abbrev pub texts : List Value → List String
  texts [] = []
  texts (value ∷ values) = elim (as_str value) [ none ↦ texts values | some s ↦ s ∷ texts values ]

-- What serde_json says of the values that are built and of `==`.
pub record IsJson (api : JsonApi) : Type 0 where
  pub as_str-string : (s : String) → api.as_str (api.string s) ≡ some s
  pub as_str-object : (fs : List (String × api.Value)) → api.as_str (api.object fs) ≡ none
  pub as_object-object :
      (fs : List (String × api.Value)) → has_some (api.as_object (api.object fs)) ≡ true
  pub get-object :
      (key : String) (fs : List (String × api.Value))
      → Distinct (firsts fs)
      → api.get key (api.object fs) ≡ get_entry key fs
  pub equal_self : (v : api.Value) → api.equal v v ≡ true
  pub eq_of_equal : (v w : api.Value) → api.equal v w ≡ true → v ≡ w
