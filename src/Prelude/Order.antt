-- ===== src/Prelude/Order.antt =====
-- The order and the equality of map keys: numbers, texts, options and pairs.
use Prim.Native.Nat.{ℕ, compare, Ordering}
use Prim.Native.Nat.Ordering.{lt, eq, gt}
use Prim.Native.String.{String, compare as compare_text}
use mathlib.Core.Path.{◌≡◌, refl, ap}
use mathlib.Core.Logic.{◌↔◌}
use mathlib.Core.Bool.{Bool, true, false}
use mathlib.Core.Option.{Option, none, some}
use text.Mathlib.TextEquality.{path_by_compare}
use text.Mathlib.TextPositions.{compare_refl}
use mathlib.Core.List.{List, [], ◌∷◌}
use native.Mathlib.Omega.{arith}

-- A total order's `cmp`, as far as the maps need it: `eq` is equality.
pub record Ord {ℓ} (K : Type ℓ) : Type ℓ where
  pub cmp : K → K → Ordering
  pub cmp_refl : (a : K) → cmp a a ≡ eq
  pub eq_of_cmp : (a b : K) → cmp a b ≡ eq → a ≡ b

abbrev pub then : Ordering → Ordering → Ordering
then eq second = second
then lt second = lt
then gt second = gt

abbrev pub is_eq : Ordering → Bool
is_eq eq = true
is_eq lt = false
is_eq gt = false

infix 50 ◌==◌
abbrev pub ◌==◌ {ℓ} : {K : Type ℓ} ⦃o : Ord K⦄ → K → K → Bool
◌==◌ ⦃o⦄ a b = is_eq (o.cmp a b)

pub compare_self : (n : ℕ) → compare n n ≡ eq
compare_self n = ground arith

pub eq_of_compare : (m n : ℕ) → compare m n ≡ eq → m ≡ n
eq_of_compare m n h = ground arith

instance abbrev pub nat_ord : Ord ℕ
nat_ord = record { cmp = compare; cmp_refl = compare_self; eq_of_cmp = eq_of_compare }

instance abbrev pub string_ord : Ord String
string_ord = record { cmp = compare_text; cmp_refl = compare_refl; eq_of_cmp = path_by_compare }

module _ {ℓ} {A : Type ℓ} ⦃a : Ord A⦄ where
  -- `None` sorts before every `Some`.
  abbrev pub option_cmp : Option A → Option A → Ordering
  option_cmp none none = eq
  option_cmp none (some y) = lt
  option_cmp (some x) none = gt
  option_cmp (some x) (some y) = a.cmp x y

  pub option_cmp_refl : (x : Option A) → option_cmp x x ≡ eq
  option_cmp_refl none = refl
  option_cmp_refl (some x) = a.cmp_refl x

  pub eq_of_option_cmp : (x y : Option A) → option_cmp x y ≡ eq → x ≡ y
  eq_of_option_cmp none none h = refl
  eq_of_option_cmp none (some y) h = cc
  eq_of_option_cmp (some x) none h = cc
  eq_of_option_cmp (some x) (some y) h = ap {B = Option A} some (a.eq_of_cmp x y h)

  instance abbrev pub option_ord : Ord (Option A)
  option_ord = record { cmp = option_cmp; cmp_refl = option_cmp_refl; eq_of_cmp = eq_of_option_cmp }

  -- The test is equality.
  pub eq_iff : (x y : A) → ((x == y) ≡ true) ↔ (x ≡ y)
  eq_iff x y = (λ h. ground (arith, a.eq_of_cmp x y), λ e. ground (arith, a.cmp_refl x))

  pub eq_self : (x : A) → (x == x) ≡ true
  eq_self x = (eq_iff x x).1 refl

module _ {ℓ κ} {A : Type ℓ} {B : Type κ} ⦃a : Ord A⦄ ⦃b : Ord B⦄ where
  abbrev pub pair_cmp : A × B → A × B → Ordering
  pair_cmp x y = then (a.cmp x.0 y.0) (b.cmp x.1 y.1)

  pub pair_cmp_refl : (x : A × B) → pair_cmp x x ≡ eq
  pair_cmp_refl x = simp (a.cmp_refl, b.cmp_refl)

  pub eq_of_pair_cmp : (x y : A × B) → pair_cmp x y ≡ eq → x ≡ y
  eq_of_pair_cmp x y h = ground (arith, a.eq_of_cmp x.0 y.0, b.eq_of_cmp x.1 y.1)

  instance abbrev pub pair_ord : Ord (A × B)
  pair_ord = record { cmp = pair_cmp; cmp_refl = pair_cmp_refl; eq_of_cmp = eq_of_pair_cmp }

module _ {A : Type 0} ⦃a : Ord A⦄ where
  -- Lists, in the order of their first difference.
  abbrev pub list_cmp : List A → List A → Ordering
  list_cmp [] [] = eq
  list_cmp [] (y ∷ ys) = lt
  list_cmp (x ∷ xs) [] = gt
  list_cmp (x ∷ xs) (y ∷ ys) = then (a.cmp x y) (list_cmp xs ys)

  pub list_cmp_refl : (xs : List A) → list_cmp xs xs ≡ eq
  list_cmp_refl [] = refl
  list_cmp_refl (x ∷ xs) = ground (arith, a.cmp_refl x, list_cmp_refl xs)

  pub eq_of_list_cmp : (xs ys : List A) → list_cmp xs ys ≡ eq → xs ≡ ys
  eq_of_list_cmp [] [] h = refl
  eq_of_list_cmp [] (y ∷ ys) h = cc
  eq_of_list_cmp (x ∷ xs) [] h = cc
  eq_of_list_cmp (x ∷ xs) (y ∷ ys) h = ground (arith, a.eq_of_cmp x y, eq_of_list_cmp xs ys)

  instance abbrev pub list_ord : Ord (List A)
  list_ord = record { cmp = list_cmp; cmp_refl = list_cmp_refl; eq_of_cmp = eq_of_list_cmp }
