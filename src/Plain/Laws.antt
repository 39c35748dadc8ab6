-- ===== src/Plain/Laws.antt =====
-- The plain JSON values keep the laws of the JSON parameter.
use codex_telegram_bridge.Prelude.Map.{get, get_entry}
use codex_telegram_bridge.Prelude.Int.{int_ord}
use codex_telegram_bridge.Prelude.{
  String, ◌≡◌, refl, sym, Bool, true, false, List, [], ◌∷◌, arith, string_ord, nat_ord, pair_ord,
  option_ord, list_ord, ap,
}
use codex_telegram_bridge.Json.{IsJson}
use codex_telegram_bridge.Plain.{
  Json, Jsons, Fields, text, number, flag, array, dict, no_values, value_and, no_fields, field_and,
  members, from_members, same_flag, same_json, same_values, same_fields, plain,
}
use codex_telegram_bridge.Json.{IsJson}
use codex_telegram_bridge.Prelude.Map.{get, get_entry}

members-from_members : (fs : List (String × Json)) → members (from_members fs) ≡ fs
members-from_members [] = refl
members-from_members ((k, v) ∷ fs) = ap (λ gs. (k, v) ∷ gs) (members-from_members fs)

same_flag_self : (b : Bool) → same_flag b b ≡ true
same_flag_self true = refl
same_flag_self false = refl

mutual
  same_json_self : (v : Json) → same_json v v ≡ true
  same_json_self (text s) = ground (arith, string_ord.cmp_refl s)
  same_json_self (number n) = ground (arith, int_ord.cmp_refl n)
  same_json_self (flag b) = same_flag_self b
  same_json_self (array vs) = same_values_self vs
  same_json_self (dict fs) = same_fields_self fs

  same_values_self : (vs : Jsons) → same_values vs vs ≡ true
  same_values_self no_values = refl
  same_values_self (value_and v vs) = ground (arith, same_json_self v, same_values_self vs)

  same_fields_self : (fs : Fields) → same_fields fs fs ≡ true
  same_fields_self no_fields = refl
  same_fields_self (field_and k v fs) =
      ground (arith, string_ord.cmp_refl k, same_json_self v, same_fields_self fs)

same_flag_eq : (b c : Bool) → same_flag b c ≡ true → b ≡ c
same_flag_eq true c h = sym h
same_flag_eq false false h = refl
same_flag_eq false true h = absurd (ground arith)

mutual
  same_json_eq : (v w : Json) → same_json v w ≡ true → v ≡ w
  same_json_eq (text s) (text t) h = ground (arith, string_ord.eq_of_cmp s t)
  same_json_eq (number n) (number m) h = ground (arith, int_ord.eq_of_cmp n m)
  same_json_eq (flag b) (flag c) h = ap flag (same_flag_eq b c h)
  same_json_eq (array vs) (array ws) h = ap array (same_values_eq vs ws h)
  same_json_eq (dict fs) (dict gs) h = ap dict (same_fields_eq fs gs h)
  same_json_eq v w h = absurd (ground arith)

  same_values_eq : (vs ws : Jsons) → same_values vs ws ≡ true → vs ≡ ws
  same_values_eq no_values no_values h = refl
  same_values_eq (value_and v vs) (value_and w ws) h =
      ground (arith, same_json_eq v w, same_values_eq vs ws)
  same_values_eq vs ws h = absurd (ground arith)

  same_fields_eq : (fs gs : Fields) → same_fields fs gs ≡ true → fs ≡ gs
  same_fields_eq no_fields no_fields h = refl
  same_fields_eq (field_and k v fs) (field_and j w gs) h =
      ground (arith, string_ord.eq_of_cmp k j, same_json_eq v w, same_fields_eq fs gs)
  same_fields_eq fs gs h = absurd (ground arith)

pub plain-IsJson : IsJson plain
unfolding get
plain-IsJson = record {
  as_str-string = λ s. refl;
  as_str-object = λ fs. refl;
  as_object-object = λ fs. refl;
  get-object = λ key fs distinct. ap (get_entry key) (members-from_members fs);
  equal_self = same_json_self;
  eq_of_equal = same_json_eq;
}
