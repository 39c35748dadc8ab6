-- ===== src/Prelude/Removal.antt =====
-- The keys of a map after `remove` and `retain`, and how many there are.
use codex_telegram_bridge.Prelude.Map.{
  Map, firsts, keys, retain_entries, retain_keys, contains, Distinct, remove_entry, remove,
  get_entry,
}
use codex_telegram_bridge.Prelude.Int.{int_ord}
use codex_telegram_bridge.Prelude.{
  suc, ◌≡◌, refl, Bool, true, false, not, ◌&&◌, List, [], ◌∷◌, arith, length, Ord, ◌==◌, string_ord,
  nat_ord, pair_ord, option_ord, list_ord, none, some,
}

module _ {ℓ κ} {K : Type ℓ} {V : Type κ} ⦃o : Ord K⦄ where
  contains-remove_entry :
      (k j : K) (es : List (K × V))
      → contains j (firsts (remove_entry k es)) ≡ (contains j (firsts es) && not (j == k))
  contains-remove_entry k j [] = refl
  contains-remove_entry k j ((i, v) ∷ es) = ground (
    arith,
    contains-remove_entry k j es,
    o.eq_of_cmp i j,
    o.eq_of_cmp i k,
    o.eq_of_cmp j k,
    o.cmp_refl k,
  )

  Distinct-remove_entry :
      (k : K) (es : List (K × V)) → Distinct (firsts es) → Distinct (firsts (remove_entry k es))
  Distinct-remove_entry k [] d = tt
  Distinct-remove_entry k ((i, v) ∷ es) d =
      ground (arith, Distinct-remove_entry k es d.1, contains-remove_entry k i es)

  pub Distinct-remove : (k : K) (m : Map K V) → Distinct (keys m) → Distinct (keys (remove k m))
  unfolding remove
  Distinct-remove k m d = Distinct-remove_entry k m.entries d

  length-remove_entry_absent :
      (k : K) (es : List (K × V))
      → contains k (firsts es) ≡ false
      → length (remove_entry k es) ≡ length es
  length-remove_entry_absent k [] h = refl
  length-remove_entry_absent k ((i, v) ∷ es) h = ground (arith, length-remove_entry_absent k es)

  length-remove_entry :
      (k : K) (es : List (K × V))
      → Distinct (firsts es)
      → contains k (firsts es) ≡ true
      → suc (length (remove_entry k es)) ≡ length es
  length-remove_entry k [] d h = cc
  length-remove_entry k ((i, v) ∷ es) d h =
      ground (arith, length-remove_entry k es d.1, length-remove_entry_absent k es, o.eq_of_cmp i k)

  -- To remove a key that is there takes one entry away.
  pub length-remove :
      (k : K) (m : Map K V)
      → Distinct (keys m)
      → contains k (keys m) ≡ true
      → suc (length (remove k m).entries) ≡ length m.entries
  unfolding remove
  length-remove k m d h = length-remove_entry k m.entries d h

  contains-retain_entries :
      (keep : K → Bool) (j : K) (es : List (K × V))
      → contains j (firsts (retain_entries keep es)) ≡ (contains j (firsts es) && keep j)
  contains-retain_entries keep j [] = refl
  contains-retain_entries keep j ((i, v) ∷ es) =
      ground (arith, contains-retain_entries keep j es, o.eq_of_cmp i j)

  Distinct-retain_entries :
      (keep : K → Bool) (es : List (K × V))
      → Distinct (firsts es)
      → Distinct (firsts (retain_entries keep es))
  Distinct-retain_entries keep [] d = tt
  Distinct-retain_entries keep ((i, v) ∷ es) d =
      ground (arith, Distinct-retain_entries keep es d.1, contains-retain_entries keep i es)

  pub contains-retain_keys :
      (keep : K → Bool) (j : K) (m : Map K V)
      → contains j (keys (retain_keys keep m)) ≡ (contains j (keys m) && keep j)
  unfolding retain_keys
  contains-retain_keys keep j m = contains-retain_entries keep j m.entries

  pub Distinct-retain_keys :
      (keep : K → Bool) (m : Map K V) → Distinct (keys m) → Distinct (keys (retain_keys keep m))
  unfolding retain_keys
  Distinct-retain_keys keep m d = Distinct-retain_entries keep m.entries d

  length-firsts : (es : List (K × V)) → length (firsts es) ≡ length es
  length-firsts [] = refl
  length-firsts ((k, v) ∷ es) = omega (arith, length-firsts es)

  pub length-keys : (m : Map K V) → length (keys m) ≡ length m.entries
  length-keys m = length-firsts m.entries

  -- A key that is not there has no value.
  pub contains-absent :
      (k : K) (es : List (K × V)) → contains k (firsts es) ≡ false → get_entry k es ≡ none
  contains-absent k [] h = refl
  contains-absent k ((j, v) ∷ es) h = ground (arith, contains-absent k es)

  pub contains-there :
      (k : K) (v : V) (es : List (K × V)) → get_entry k es ≡ some v → contains k (firsts es) ≡ true
  contains-there k v [] h = absurd (ground arith)
  contains-there k v ((j, w) ∷ es) h = ground (arith, contains-there k v es)
