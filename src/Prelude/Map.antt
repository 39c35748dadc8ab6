-- ===== src/Prelude/Map.antt =====
-- A `BTreeMap`: entries in the order of their keys, no key twice. Clients use its laws.
use mathlib.Core.Option
use mathlib.Core.Path.{◌≡◌, refl}
use mathlib.Core.Option.{Option, none, some}
use mathlib.Core.Bool.{Bool, false, ◌||◌}
use mathlib.Core.Logic.{inl, inr}
use mathlib.Core.List.{List, [], ◌∷◌}
use native.Mathlib.Omega.{arith}
use Prim.Native.Nat.Ordering.{lt, eq, gt}
use codex_telegram_bridge.Prelude.Tests.{if◌then◌else◌, Option-cases}
use codex_telegram_bridge.Prelude.Order.{Ord, ◌==◌}

pub record Map {ℓ κ} (K : Type ℓ) (V : Type κ) : Type (ℓ ⊔ κ) where
  pub entries : List (K × V)

module _ {ℓ κ} {K : Type ℓ} {V : Type κ} where
  unfoldable pub empty : Map K V
  empty = record { entries = [] }

  -- `BTreeMap::keys` and `values`.
  abbrev pub firsts : List (K × V) → List K
  firsts [] = []
  firsts ((k, v) ∷ es) = k ∷ firsts es

  abbrev pub seconds : List (K × V) → List V
  seconds [] = []
  seconds ((k, v) ∷ es) = v ∷ seconds es

  abbrev pub keys : Map K V → List K
  keys m = firsts m.entries

  abbrev pub values : Map K V → List V
  values m = seconds m.entries

  -- A loop over `values_mut`.
  abbrev pub map_entries : (V → V) → List (K × V) → List (K × V)
  map_entries f [] = []
  map_entries f ((k, v) ∷ es) = (k, f v) ∷ map_entries f es

  -- `BTreeMap::retain` by the key.
  abbrev pub retain_entries : (K → Bool) → List (K × V) → List (K × V)
  retain_entries keep [] = []
  retain_entries keep ((k, v) ∷ es) =
      let rest = retain_entries keep es in if keep k then (k, v) ∷ rest else rest

  unfoldable pub retain_keys : (K → Bool) → Map K V → Map K V
  retain_keys keep m = record { entries = retain_entries keep m.entries }

  unfoldable pub map_values : (V → V) → Map K V → Map K V
  map_values f m = record { entries = map_entries f m.entries }

  firsts-map_entries : (f : V → V) (es : List (K × V)) → firsts (map_entries f es) ≡ firsts es
  firsts-map_entries f [] = refl
  firsts-map_entries f ((k, v) ∷ es) = rw (firsts-map_entries f es)

  pub keys-map_values : (f : V → V) (m : Map K V) → keys (map_values f m) ≡ keys m
  unfolding map_values
  keys-map_values f m = firsts-map_entries f m.entries

module _ {ℓ} {K : Type ℓ} ⦃o : Ord K⦄ where
  abbrev pub contains : K → List K → Bool
  contains k [] = false
  contains k (j ∷ js) = j == k || contains k js

  abbrev pub Distinct : List K → Type 0
  Distinct [] = Unit
  Distinct (k ∷ ks) = (contains k ks ≡ false) × Distinct ks

module _ {ℓ κ} {K : Type ℓ} {V : Type κ} ⦃o : Ord K⦄ where
  abbrev pub get_entry : K → List (K × V) → Option V
  get_entry k [] = none
  get_entry k ((j, v) ∷ es) = if j == k then some v else get_entry k es

  unfoldable pub get : K → Map K V → Option V
  get k m = get_entry k m.entries

  -- A key that is there gets the new value where it stands, a new one goes to its place.
  abbrev pub replace : K → V → List (K × V) → List (K × V)
  replace k v [] = []
  replace k v ((j, w) ∷ es) =
      let rest = replace k v es in if j == k then (j, v) ∷ es else (j, w) ∷ rest

  abbrev pub place : K → V → List (K × V) → List (K × V)
  place k v [] = (k, v) ∷ []
  place k v ((j, w) ∷ es) =
      let rest = place k v es in
      elim (o.cmp k j) [
        | lt ↦ (k, v) ∷ (j, w) ∷ es
        | eq ↦ (k, v) ∷ (j, w) ∷ es
        | gt ↦ (j, w) ∷ rest
      ]

  abbrev pub insert_entry : K → V → List (K × V) → List (K × V)
  insert_entry k v es = elim (get_entry k es) [ none ↦ place k v es | some _ ↦ replace k v es ]

  unfoldable pub insert : K → V → Map K V → Map K V
  insert k v m = record { entries = insert_entry k v m.entries }

  -- `HashMap::remove` and SQL's `DELETE`.
  abbrev pub remove_entry : K → List (K × V) → List (K × V)
  remove_entry k [] = []
  remove_entry k ((j, w) ∷ es) =
      let rest = remove_entry k es in if j == k then rest else (j, w) ∷ rest

  unfoldable pub remove : K → Map K V → Map K V
  remove k m = record { entries = remove_entry k m.entries }

  get_entry-remove_entry :
      (k j : K) (es : List (K × V))
      → get_entry j (remove_entry k es) ≡ (if k == j then none else get_entry j es)
  get_entry-remove_entry k j [] = ground arith
  get_entry-remove_entry k j ((i, u) ∷ es) = ground (
    arith,
    get_entry-remove_entry k j es,
    o.eq_of_cmp i k,
    o.eq_of_cmp k j,
    o.eq_of_cmp i j,
    o.cmp_refl k,
  )

  pub get-remove : (k j : K) (m : Map K V) → get j (remove k m) ≡ (if k == j then none else get j m)
  unfolding get remove
  get-remove k j m = get_entry-remove_entry k j m.entries

  pub get-empty : (k : K) → get k (empty {V = V}) ≡ none
  unfolding get empty
  get-empty k = refl

  get_entry-replace :
      (k j : K) (v w : V) (es : List (K × V))
      → get_entry k es ≡ some w
      → get_entry j (replace k v es) ≡ (if k == j then some v else get_entry j es)
  get_entry-replace k j v w [] h = cc
  get_entry-replace k j v w ((i, u) ∷ es) h = ground (
    arith,
    get_entry-replace k j v w es,
    o.eq_of_cmp i k,
    o.eq_of_cmp k j,
    o.eq_of_cmp i j,
    o.cmp_refl k,
  )

  get_entry-place :
      (k j : K) (v : V) (es : List (K × V))
      → get_entry k es ≡ none
      → get_entry j (place k v es) ≡ (if k == j then some v else get_entry j es)
  get_entry-place k j v [] h = refl
  get_entry-place k j v ((i, u) ∷ es) h =
      ground (arith, get_entry-place k j v es, o.eq_of_cmp k j, o.eq_of_cmp i j, o.cmp_refl k)

  pub get-insert :
      (k j : K) (v : V) (m : Map K V) → get j (insert k v m) ≡ (if k == j then some v else get j m)
  unfolding get insert
  get-insert k j v m = elim (Option-cases (get_entry k m.entries)) [
    | inl e ↦ rw (e, insert_entry) (get_entry-place k j v m.entries e)
    | inr (w, e) ↦ rw (e, insert_entry) (get_entry-replace k j v w m.entries e)
  ]

  pub get-insert_self : (k : K) (v : V) (m : Map K V) → get k (insert k v m) ≡ some v
  get-insert_self k v m = ground (arith, get-insert k k v m, o.cmp_refl k)

  get_entry-map_entries :
      (f : V → V) (k : K) (es : List (K × V))
      → get_entry k (map_entries f es) ≡ Option.map f (get_entry k es)
  get_entry-map_entries f k [] = refl
  get_entry-map_entries f k ((j, v) ∷ es) = ground (arith, get_entry-map_entries f k es)

  pub get-map_values :
      (f : V → V) (k : K) (m : Map K V) → get k (map_values f m) ≡ Option.map f (get k m)
  unfolding get map_values
  get-map_values f k m = get_entry-map_entries f k m.entries

  contains-replace :
      (k j : K) (v : V) (es : List (K × V))
      → contains j (firsts (replace k v es)) ≡ contains j (firsts es)
  contains-replace k j v [] = refl
  contains-replace k j v ((i, u) ∷ es) = ground (arith, contains-replace k j v es)

  contains-place :
      (k j : K) (v : V) (es : List (K × V))
      → contains j (firsts (place k v es)) ≡ (k == j || contains j (firsts es))
  contains-place k j v [] = refl
  contains-place k j v ((i, u) ∷ es) = ground (arith, contains-place k j v es)

  contains-get_entry :
      (k : K) (es : List (K × V)) → get_entry k es ≡ none → contains k (firsts es) ≡ false
  contains-get_entry k [] h = refl
  contains-get_entry k ((j, v) ∷ es) h = ground (arith, contains-get_entry k es)

  pub contains-insert :
      (k j : K) (v : V) (m : Map K V)
      → contains j (keys (insert k v m)) ≡ (k == j || contains j (keys m))
  unfolding insert
  contains-insert k j v m = elim (Option-cases (get_entry k m.entries)) [
    | inl e ↦ rw (e, insert_entry) (contains-place k j v m.entries)
    | inr (w, e) ↦ rw (e, insert_entry) (contains_present k j v w m.entries e)
  ]
    where
      contains_present :
          (k j : K) (v w : V) (es : List (K × V))
          → get_entry k es ≡ some w
          → contains j (firsts (replace k v es)) ≡ (k == j || contains j (firsts es))
      contains_present k j v w [] h = cc
      contains_present k j v w ((i, u) ∷ es) h = ground (
        arith,
        contains-replace k j v es,
        contains_present k j v w es,
        o.eq_of_cmp i k,
        o.eq_of_cmp k j,
        o.cmp_refl k,
      )

  Distinct-replace :
      (k : K) (v : V) (es : List (K × V))
      → Distinct (firsts es)
      → Distinct (firsts (replace k v es))
  Distinct-replace k v [] d = tt
  Distinct-replace k v ((i, u) ∷ es) d =
      ground (arith, Distinct-replace k v es d.1, contains-replace k i v es)

  Distinct-place :
      (k : K) (v : V) (es : List (K × V))
      → contains k (firsts es) ≡ false
      → Distinct (firsts es)
      → Distinct (firsts (place k v es))
  Distinct-place k v [] h d = (refl, tt)
  Distinct-place k v ((i, u) ∷ es) h d =
      ground (arith, Distinct-place k v es, contains-place k i v es, o.eq_of_cmp k i, o.cmp_refl k)

  -- No key comes twice.
  pub Distinct-insert :
      (k : K) (v : V) (m : Map K V) → Distinct (keys m) → Distinct (keys (insert k v m))
  unfolding insert
  Distinct-insert k v m d = elim (Option-cases (get_entry k m.entries)) [
    | inl e ↦
        rw (e, insert_entry) (Distinct-place k v m.entries (contains-get_entry k m.entries e) d)
    | inr (w, e) ↦ rw (e, insert_entry) (Distinct-replace k v m.entries d)
  ]

pub ruleset map_laws = (get-empty, get-insert, get-map_values)
