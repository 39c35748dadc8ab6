-- ===== src/Projector/Trimming.antt =====
-- rust/crates/engine/src/projector.rs: which tasks of subagents stay, and how many.
use codex_telegram_bridge.Projector.Tasks.{
  max_subagent_tasks, updated_at_of, drop_oldest, trim_rounds, trim_subagent_tasks,
}
use codex_telegram_bridge.Projector.Dropping.{
  drop_oldest-lem, Distinct-Dropped, length-Dropped, get-Dropped,
}
use codex_telegram_bridge.Prelude.Int.{◌≤ℤ◌, int_ord}
use codex_telegram_bridge.Prelude.{
  ℕ, zero, suc, ◌+◌, ◌≤◌, String, ◌≡◌, refl, ◌∙◌, inl, inr, none, some, arith, ltb, if◌then◌else◌,
  Bool-cases, length, ◌==◌, string_ord, nat_ord, pair_ord, option_ord, list_ord,
}
use codex_telegram_bridge.Json.{JsonApi}
use codex_telegram_bridge.Prelude.Map.{get, Map, keys, Distinct}

module _ (api : JsonApi) where
  open api use {Value}

  length-trim_rounds :
      (rounds : ℕ) (tasks : Map String Value)
      → Distinct (keys tasks)
      → length tasks.entries ≤ rounds + max_subagent_tasks
      → length (trim_rounds api rounds tasks).entries ≡ (
          if ltb max_subagent_tasks (length tasks.entries)
          then max_subagent_tasks
          else length tasks.entries)
  unfolding trim_rounds
  length-trim_rounds zero tasks d h = ground arith
  length-trim_rounds (suc rounds) tasks d h =
      elim (Bool-cases (ltb max_subagent_tasks (length tasks.entries))) [
        | inl more ↦
            let g = drop_oldest-lem api tasks d (ground arith) in
            let fewer = length-Dropped api tasks _ g d in
            let ih =
              length-trim_rounds rounds (drop_oldest api tasks.entries tasks)
                (Distinct-Dropped api tasks _ g d) (omega arith) in
            rw (trim_rounds, more) (ih ∙ ground arith)
        | inr few ↦ rw (trim_rounds, few) refl
      ]

  -- The bound holds the 50 tasks, or all where there are fewer; tasks have distinct names.
  pub length-trim_subagent_tasks :
      (tasks : Map String Value)
      → Distinct (keys tasks)
      → length (trim_subagent_tasks api tasks).entries ≡ (
          if ltb max_subagent_tasks (length tasks.entries)
          then max_subagent_tasks
          else length tasks.entries)
  unfolding trim_subagent_tasks
  length-trim_subagent_tasks tasks d =
      length-trim_rounds (length tasks.entries) tasks d (omega arith)

  -- A task that stays was there.
  get-trim_rounds :
      (rounds : ℕ) (id : String) (v : Value) (tasks : Map String Value)
      → Distinct (keys tasks)
      → get id (trim_rounds api rounds tasks) ≡ some v
      → get id tasks ≡ some v
  unfolding trim_rounds
  get-trim_rounds zero id v tasks d e = e
  get-trim_rounds (suc rounds) id v tasks d e =
      elim (Bool-cases (ltb max_subagent_tasks (length tasks.entries))) [
        | inl more ↦
            let g = drop_oldest-lem api tasks d (ground arith) in
            let there =
              get-trim_rounds rounds id v (drop_oldest api tasks.entries tasks)
                (Distinct-Dropped api tasks _ g d) (ground arith) in
            ground (arith, get-Dropped api id tasks _ g)
        | inr few ↦ ground arith
      ]

  trim_rounds_newest :
      (rounds : ℕ) (gone kept : String) (v w : Value) (tasks : Map String Value)
      → Distinct (keys tasks)
      → get gone tasks ≡ some v
      → get gone (trim_rounds api rounds tasks) ≡ none
      → get kept (trim_rounds api rounds tasks) ≡ some w
      → updated_at_of api v ≤ℤ updated_at_of api w
  unfolding trim_rounds
  trim_rounds_newest zero gone kept v w tasks d e n k = absurd (ground arith)
  trim_rounds_newest (suc rounds) gone kept v w tasks d e n k =
      let there = get-trim_rounds (suc rounds) kept w tasks d k in
      elim (Bool-cases (ltb max_subagent_tasks (length tasks.entries))) [
        | inl more ↦
            let g = drop_oldest-lem api tasks d (ground arith) in
            elim (Bool-cases (g.key == gone)) [
              | inl same ↦
                  ground
                    (arith, g.is_there, g.is_oldest kept w there, string_ord.eq_of_cmp g.key gone)
              | inr differs ↦
                  trim_rounds_newest rounds gone kept v w (drop_oldest api tasks.entries tasks)
                    (Distinct-Dropped api tasks _ g d)
                    (ground (arith, get-Dropped api gone tasks _ g)) (ground arith) (ground arith)
            ]
        | inr few ↦ absurd (ground arith)
      ]

  -- Where the tasks have distinct names, the bound on them drops older tasks only: the last update of
  -- one that is gone is not later than that of one that stays.
  pub trim_keeps_newest :
      (gone kept : String) (v w : Value) (tasks : Map String Value)
      → Distinct (keys tasks)
      → get gone tasks ≡ some v
      → get gone (trim_subagent_tasks api tasks) ≡ none
      → get kept (trim_subagent_tasks api tasks) ≡ some w
      → updated_at_of api v ≤ℤ updated_at_of api w
  unfolding trim_subagent_tasks
  trim_keeps_newest gone kept v w tasks d e n k =
      trim_rounds_newest (length tasks.entries) gone kept v w tasks d e n k
