-- ===== src/Prelude/Distinct.antt =====
-- Membership and distinctness in a list, after an append and after `retain`.
use codex_telegram_bridge.Prelude.Int.{int_ord}
use codex_telegram_bridge.Prelude.{string_ord, nat_ord, pair_ord, option_ord, list_ord}
use mathlib.Core.Path.{◌≡◌, refl}
use Prim.Native.Nat.{◌≤◌, ◌<◌}
use mathlib.Core.Bool.{Bool, true, false, not, ◌&&◌, ◌||◌}
use mathlib.Core.List.{List, [], ◌∷◌, ◌++◌}
use native.Mathlib.Omega.{arith}
use codex_telegram_bridge.Prelude.Lists.{length, retain}
use codex_telegram_bridge.Prelude.Order.{Ord, ◌==◌}
use codex_telegram_bridge.Prelude.Map.{contains, Distinct}

module _ {K : Type 0} ⦃o : Ord K⦄ where
  -- All but `k`.
  abbrev pub without : K → List K → List K
  without k ks = retain (λ x. not (x == k)) ks

  pub contains-append :
      (j k : K) (ks : List K) → contains j (ks ++ k ∷ []) ≡ (contains j ks || k == j)
  contains-append j k [] = ground arith
  contains-append j k (x ∷ ks) = ground (arith, contains-append j k ks)

  pub Distinct-append :
      (k : K) (ks : List K) → contains k ks ≡ false → Distinct ks → Distinct (ks ++ k ∷ [])
  Distinct-append k [] h d = (refl, tt)
  Distinct-append k (x ∷ ks) h d =
      ground (arith, Distinct-append k ks, contains-append x k ks, o.eq_of_cmp k x, o.cmp_refl k)

  pub contains-without :
      (j k : K) (ks : List K) → contains j (without k ks) ≡ (contains j ks && not (j == k))
  contains-without j k [] = refl
  contains-without j k (x ∷ ks) = ground (
    arith,
    contains-without j k ks,
    o.eq_of_cmp x j,
    o.eq_of_cmp x k,
    o.eq_of_cmp j k,
    o.cmp_refl k,
  )

  pub Distinct-without : (k : K) (ks : List K) → Distinct ks → Distinct (without k ks)
  Distinct-without k [] d = tt
  Distinct-without k (x ∷ ks) d = ground (arith, Distinct-without k ks d.1, contains-without x k ks)

  pub length-without_le : (k : K) (ks : List K) → length (without k ks) ≤ length ks
  length-without_le k [] = omega arith
  length-without_le k (x ∷ ks) = ground (arith, length-without_le k ks)

  pub length-without :
      (k : K) (ks : List K) → contains k ks ≡ true → length (without k ks) < length ks
  length-without k [] h = cc
  length-without k (x ∷ ks) h = ground (arith, length-without k ks, length-without_le k ks)

  -- Distinct members of a list are at most as many as it has.
  pub length_of_contained :
      (ks js : List K)
      → Distinct ks
      → ((k : K) → contains k ks ≡ true → contains k js ≡ true)
      → length ks ≤ length js
  length_of_contained [] js d h = omega arith
  length_of_contained (k ∷ ks) js d h =
      let there = h k (ground (arith, o.cmp_refl k)) in
      let fewer = length-without k js there in
      let rest =
        length_of_contained ks (without k js) d.1 (λ x m. kept_member x m (h x (ground arith))) in
      omega arith
    where
      kept_member :
          (x : K) → contains x ks ≡ true → contains x js ≡ true → contains x (without k js) ≡ true
      kept_member x m there = ground (arith, contains-without x k js, o.eq_of_cmp x k)

  -- The test of distinctness.
  abbrev pub is_distinct : List K → Bool
  is_distinct [] = true
  is_distinct (k ∷ ks) = not (contains k ks) && is_distinct ks

  pub is_distinct-Distinct : (ks : List K) → is_distinct ks ≡ true → Distinct ks
  is_distinct-Distinct [] h = tt
  is_distinct-Distinct (k ∷ ks) h = ground (arith, is_distinct-Distinct ks)
