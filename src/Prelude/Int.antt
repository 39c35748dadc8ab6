-- ===== src/Prelude/Int.antt =====
-- Signed integers over the native numbers, and the saturating arithmetic of `i64`.
use Prim.Native.Nat.{ℕ, suc, ◌+◌, ◌-◌, ◌*◌, ◌/◌, ◌≤◌, ◌<◌, compare, Ordering}
use mathlib.Core.Path.{◌≡◌}
use mathlib.Core.Bool.{Bool, true, false}
use native.Mathlib.Omega.{arith}
use codex_telegram_bridge.Prelude.Tests.{ltb, leb, if◌then◌else◌}
use codex_telegram_bridge.Prelude.Order.{Ord}

-- `negsuc n` is -(n + 1).
pub data ℤ : Type 0 where
  pos : ℕ → ℤ
  negsuc : ℕ → ℤ

abbrev pub pos_part : ℤ → ℕ
pos_part (pos n) = n
pos_part (negsuc n) = 0

abbrev pub neg_part : ℤ → ℕ
neg_part (pos n) = 0
neg_part (negsuc n) = suc n

-- a - b, as an integer.
abbrev pub sub_ℕ : ℕ → ℕ → ℤ
sub_ℕ a b = if leb b a then pos (a - b) else negsuc (b - a - 1)

infixl 65 ◌+ℤ◌ ◌-ℤ◌
infix 50 ◌≤ℤ◌ ◌<ℤ◌
unfoldable pub ◌+ℤ◌ : ℤ → ℤ → ℤ
a +ℤ b = sub_ℕ (pos_part a + pos_part b) (neg_part a + neg_part b)

unfoldable pub ◌-ℤ◌ : ℤ → ℤ → ℤ
a -ℤ b = sub_ℕ (pos_part a + neg_part b) (neg_part a + pos_part b)

abbrev pub ◌≤ℤ◌ : ℤ → ℤ → Type 0
a ≤ℤ b = pos_part a + neg_part b ≤ pos_part b + neg_part a

abbrev pub ◌<ℤ◌ : ℤ → ℤ → Type 0
a <ℤ b = pos_part a + neg_part b < pos_part b + neg_part a

abbrev pub ltb_ℤ : ℤ → ℤ → Bool
ltb_ℤ a b = ltb (pos_part a + neg_part b) (pos_part b + neg_part a)

abbrev pub leb_ℤ : ℤ → ℤ → Bool
leb_ℤ a b = leb (pos_part a + neg_part b) (pos_part b + neg_part a)

abbrev pub compare_ℤ : ℤ → ℤ → Ordering
compare_ℤ a b = compare (pos_part a + neg_part b) (pos_part b + neg_part a)

pub compare_ℤ_refl : (a : ℤ) → compare_ℤ a a ≡ Ordering.eq
compare_ℤ_refl a = ground arith

pub eq_of_compare_ℤ : (a b : ℤ) → compare_ℤ a b ≡ Ordering.eq → a ≡ b
eq_of_compare_ℤ a b h = ground arith

instance abbrev pub int_ord : Ord ℤ
int_ord = record { cmp = compare_ℤ; cmp_refl = compare_ℤ_refl; eq_of_cmp = eq_of_compare_ℤ }

pub +ℤ_parts :
    (a b : ℤ)
    → pos_part (a +ℤ b) + neg_part a + neg_part b ≡ neg_part (a +ℤ b) + pos_part a + pos_part b
unfolding ◌+ℤ◌
+ℤ_parts a b = ground arith

pub -ℤ_parts :
    (a b : ℤ)
    → pos_part (a -ℤ b) + neg_part a + pos_part b ≡ neg_part (a -ℤ b) + pos_part a + neg_part b
unfolding ◌-ℤ◌
-ℤ_parts a b = ground arith

abbrev pub i64_max : ℕ
i64_max = 9223372036854775807

-- The nearest value of an `i64`.
unfoldable pub saturate : ℤ → ℤ
saturate (pos n) = if leb n i64_max then pos n else pos i64_max
saturate (negsuc n) = if leb n i64_max then negsuc n else negsuc i64_max

-- `i64::saturating_add` and `i64::saturating_sub`.
unfoldable pub saturating_add : ℤ → ℤ → ℤ
saturating_add a b = saturate (a +ℤ b)

unfoldable pub saturating_sub : ℤ → ℤ → ℤ
saturating_sub a b = saturate (a -ℤ b)

-- `saturating_mul` by a natural number that is not 0.
unfoldable pub saturating_scale : ℤ → ℕ → ℤ
unfolding saturate
saturating_scale (pos n) k = saturate (pos (k * n))
saturating_scale (negsuc n) k = saturate (negsuc (k * suc n - 1))

-- `div_euclid` by a natural number that is not 0: the quotient rounded down.
unfoldable pub div_euclid : ℤ → ℕ → ℤ
div_euclid (pos n) k = pos (n / k)
div_euclid (negsuc n) k = negsuc (n / k)

abbrev pub is_negative : ℤ → Bool
is_negative (pos n) = false
is_negative (negsuc n) = true

abbrev pub max_ℤ : ℤ → ℤ → ℤ
max_ℤ a b = if leb_ℤ a b then b else a
