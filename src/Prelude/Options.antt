-- ===== src/Prelude/Options.antt =====
-- `Option`: `and_then`, `or`, `unwrap_or` and `is_some`.
use mathlib.Core.Bool.{Bool, true, false}
use mathlib.Core.Option.{Option, none, some}

module _ {ℓ κ} {A : Type ℓ} {B : Type κ} where
  infixl 5 ◌>>=◌
  abbrev pub ◌>>=◌ : Option A → (A → Option B) → Option B
  none >>= f = none
  some a >>= f = f a

module _ {ℓ} {A : Type ℓ} where
  abbrev pub or_else : Option A → Option A → Option A
  or_else none o = o
  or_else (some a) o = some a

  abbrev pub unwrap_or : A → Option A → A
  unwrap_or default none = default
  unwrap_or default (some a) = a

  abbrev pub has_some : Option A → Bool
  has_some none = false
  has_some (some a) = true
