-- ===== src/Projector/Dropping.antt =====
-- rust/crates/engine/src/projector.rs: the task that a round of the bound drops.
use codex_telegram_bridge.Projector.Tasks.{
  is_less, older_of, updated_at_of, oldest_from, drop_oldest,
}
use codex_telegram_bridge.Prelude.Removal.{
  contains-absent, Distinct-remove, length-remove, contains-there,
}
use codex_telegram_bridge.Prelude.Map.{
  firsts, Distinct, get_entry, get, Map, keys, remove, get-remove,
}
use codex_telegram_bridge.Prelude.Int.{ℤ, ◌≤ℤ◌, int_ord}
use codex_telegram_bridge.Prelude.{
  String, ◌≡◌, refl, ◌∙◌, ◌⊎◌, inl, inr, some, List, [], ◌∷◌, arith, Bool-cases, string_ord,
  nat_ord, pair_ord, option_ord, list_ord, suc, sym, ap, length, ◌<◌, none, if◌then◌else◌, ◌==◌,
}
use codex_telegram_bridge.Json.{JsonApi}

older_of_lem :
    (a b : ℤ × String)
    → ((older_of a b).0 ≤ℤ a.0)
      × ((older_of a b).0 ≤ℤ b.0)
      × ((older_of a b ≡ a) ⊎ (older_of a b ≡ b))
unfolding older_of
older_of_lem a b = elim (Bool-cases (is_less a b)) [
  | inl less ↦ rw (older_of, less) (ground arith, ground arith, inl refl)
  | inr more ↦ rw (older_of, more) (ground arith, ground arith, inr refl)
]

module _ (api : JsonApi) where
  open api use {Value}

  -- The pair is of a task that is here.
  abbrev IsOf : ℤ × String → List (String × Value) → Type 0
  IsOf best es = (v : Value) × (get_entry best.1 es ≡ some v) × (updated_at_of api v ≡ best.0)

  IsOf-later :
      (best : ℤ × String) (key : String) (task : Value) (rest : List (String × Value))
      → Distinct (firsts ((key, task) ∷ rest))
      → IsOf best rest
      → IsOf best ((key, task) ∷ rest)
  IsOf-later best key task rest d (v, e, at) =
      (v, ground (arith, contains-absent best.1 rest, string_ord.eq_of_cmp key best.1), at)

  oldest_from_found :
      (best : ℤ × String) (es : List (String × Value))
      → Distinct (firsts es)
      → (oldest_from api best es ≡ best) ⊎ IsOf (oldest_from api best es) es
  oldest_from_found best [] d = inl refl
  oldest_from_found best ((key, task) ∷ rest) d =
      let first = older_of (updated_at_of api task, key) best in
      elim (oldest_from_found first rest d.1) [
        | inl same ↦ elim (older_of_lem (updated_at_of api task, key) best).2 [
          | inl mine ↦ inr (
            task,
            ground (arith, ap (λ b. b.1) (same ∙ mine), string_ord.cmp_refl key),
            sym (ap (λ b. b.0) (same ∙ mine)),
          )
          | inr other ↦ inl (same ∙ other)
        ]
        | inr found ↦ inr (IsOf-later _ key task rest d found)
      ]

  -- No task is older.
  oldest_from_least :
      (best : ℤ × String) (es : List (String × Value)) (id : String) (v : Value)
      → ((oldest_from api best es).0 ≤ℤ best.0)
        × (get_entry id es ≡ some v → (oldest_from api best es).0 ≤ℤ updated_at_of api v)
  oldest_from_least best [] id v = (ground arith, λ e. absurd (ground arith))
  oldest_from_least best ((key, task) ∷ rest) id v =
      let (below, others) =
        oldest_from_least (older_of (updated_at_of api task, key) best) rest id v in
      let (mine, theirs, _) = older_of_lem (updated_at_of api task, key) best in
      (omega arith, λ e. ground (arith, others))

  oldest_from-IsOf :
      (key : String) (task : Value) (es : List (String × Value))
      → Distinct (firsts ((key, task) ∷ es))
      → IsOf (oldest_from api (updated_at_of api task, key) es) ((key, task) ∷ es)
  oldest_from-IsOf key task es d = elim (oldest_from_found (updated_at_of api task, key) es d.1) [
    | inl same ↦ (
      task,
      ground (arith, ap (λ b. b.1) same, string_ord.cmp_refl key),
      sym (ap (λ b. b.0) same),
    )
    | inr found ↦ IsOf-later _ key task es d found
  ]

  oldest-from_least :
      (key id : String) (task v : Value) (es : List (String × Value))
      → get_entry id ((key, task) ∷ es) ≡ some v
      → (oldest_from api (updated_at_of api task, key) es).0 ≤ℤ updated_at_of api v
  oldest-from_least key id task v es e =
      let (mine, others) = oldest_from_least (updated_at_of api task, key) es id v in
      ground (arith, others)

  -- One task goes, and none is older.
  pub record Dropped (tasks rest : Map String Value) : Type 0 where
    pub key : String
    pub task : Value
    pub is_there : get key tasks ≡ some task
    pub is_oldest :
        (id : String) (v : Value)
        → get id tasks ≡ some v
        → updated_at_of api task ≤ℤ updated_at_of api v
    pub is_removed : rest ≡ remove key tasks

  drop_oldest-Dropped :
      (es : List (String × Value))
      → Distinct (firsts es)
      → 0 < length es
      → Dropped (record { entries = es }) (drop_oldest api es (record { entries = es }))
  unfolding get
  drop_oldest-Dropped [] d h = absurd (omega arith)
  drop_oldest-Dropped ((key, task) ∷ es) d h =
      let (v, e, at) = oldest_from-IsOf key task es d in
      record {
        key = (oldest_from api (updated_at_of api task, key) es).1;
        task = v;
        is_there = e;
        is_oldest = λ id w f. rw at (oldest-from_least key id task w es f);
        is_removed = refl;
      }

  -- What a round does to a map with too many tasks.
  pub drop_oldest-lem :
      (tasks : Map String Value)
      → Distinct (keys tasks)
      → 0 < length tasks.entries
      → Dropped tasks (drop_oldest api tasks.entries tasks)
  drop_oldest-lem tasks d h = drop_oldest-Dropped tasks.entries d h

  pub Distinct-Dropped :
      (tasks rest : Map String Value)
      → Dropped tasks rest
      → Distinct (keys tasks)
      → Distinct (keys rest)
  Distinct-Dropped tasks rest g d = rw g.is_removed (Distinct-remove g.key tasks d)

  pub length-Dropped :
      (tasks rest : Map String Value)
      → Dropped tasks rest
      → Distinct (keys tasks)
      → suc (length rest.entries) ≡ length tasks.entries
  unfolding get
  length-Dropped tasks rest g d =
      rw g.is_removed
        (length-remove g.key tasks d (contains-there g.key g.task tasks.entries g.is_there))

  pub get-Dropped :
      (id : String) (tasks rest : Map String Value)
      → (g : Dropped tasks rest) → get id rest ≡ (if g.key == id then none else get id tasks)
  get-Dropped id tasks rest g = rw g.is_removed (get-remove g.key id tasks)
