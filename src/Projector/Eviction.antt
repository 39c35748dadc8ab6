-- ===== src/Projector/Eviction.antt =====
-- rust/crates/engine/src/projector.rs: which threads an eviction takes from memory.
use codex_telegram_bridge.Projector.Reading.{is_one_of}
use codex_telegram_bridge.Projector.Types.{ThreadProjection, EventProjector}
use codex_telegram_bridge.Projector.Apply.{
  projection, is_evictable, evictable, remove_all, evict_finished_before, before, is_stale,
}
use codex_telegram_bridge.Prelude.Map.{
  get, firsts, keys, contains, Distinct, get_entry, remove, get-remove,
}
use codex_telegram_bridge.Prelude.Int.{ℤ, int_ord, ◌<ℤ◌, pos, ltb_ℤ}
use codex_telegram_bridge.Prelude.{
  String, ◌≡◌, refl, ◌∙◌, false, Option, none, some, List, [], ◌∷◌, arith, if◌then◌else◌,
  string_ord, nat_ord, pair_ord, option_ord, list_ord, sym, subst, ◌⊎◌, inl, inr, Bool-cases, true,
  ◌&&◌, Option-cases, ◌==◌, ◌||◌,
}

-- The last turn ended before the cutoff.
abbrev pub HasEnded : ℤ → Option ℤ → Type 0
HasEnded cutoff none = ⊥
HasEnded cutoff (some finished) = finished <ℤ cutoff

running :
    (turn_status : Option String)
    → ((is_one_of ("inProgress" ∷ []) turn_status ≡ true) × (turn_status ≡ some "inProgress"))
      ⊎ ((is_one_of ("inProgress" ∷ []) turn_status ≡ false)
          × (¬ (turn_status ≡ some "inProgress")))
running none = inr (refl, λ e. absurd (ground arith))
running (some s) = elim (Bool-cases ("inProgress" == s)) [
  | inl e ↦ inl (ground arith, ground (arith, string_ord.eq_of_cmp "inProgress" s))
  | inr e ↦ inr (
    ground arith,
    λ same.
        let differs = subst (λ o. is_one_of ("inProgress" ∷ []) o ≡ false) same (ground arith) in
        absurd (ground arith),
  )
]

module _ {V : Type 0} where
  -- The thread, unless it may be evicted.
  abbrev pub unless_evictable : ℤ → Option (ThreadProjection V) → Option (ThreadProjection V)
  unless_evictable cutoff none = none
  unless_evictable cutoff (some p) = if is_evictable cutoff p then none else some p

  projection-remove_all :
      (ids : List String) (id : String) (projector : EventProjector V)
      → projection id (remove_all ids projector)
        ≡ (if contains id ids then none else projection id projector)
  unfolding projection
  projection-remove_all [] id projector = refl
  projection-remove_all (x ∷ ids) id projector =
      ground (arith, projection-remove_all ids id (remove x projector), get-remove x id projector)

  contains-evictable :
      (cutoff : ℤ) (id : String) (es : List (String × ThreadProjection V))
      → contains id (firsts es) ≡ false
      → contains id (evictable cutoff es) ≡ false
  contains-evictable cutoff id [] h = refl
  contains-evictable cutoff id ((x, p) ∷ es) h = ground (arith, contains-evictable cutoff id es)

  evicted_entry :
      (cutoff : ℤ) (id : String) (es : List (String × ThreadProjection V))
      → Distinct (firsts es)
      → (if contains id (evictable cutoff es) then none else get_entry id es)
        ≡ unless_evictable cutoff (get_entry id es)
  evicted_entry cutoff id [] d = refl
  evicted_entry cutoff id ((x, p) ∷ es) d = ground (
    arith,
    evicted_entry cutoff id es d.1,
    contains-evictable cutoff id es,
    string_ord.eq_of_cmp x id,
  )

  evicted_projection :
      (cutoff : ℤ) (id : String) (projector : EventProjector V)
      → Distinct (keys projector)
      → projection id (evict_finished_before cutoff projector).1
        ≡ unless_evictable cutoff (projection id projector)
  unfolding evict_finished_before projection get
  evicted_projection cutoff id projector d =
      projection-remove_all (evictable cutoff projector.entries) id projector
      ∙ evicted_entry cutoff id projector.entries d

  -- The last turn of the thread still runs.
  abbrev pub IsRunning : ThreadProjection V → Type 0
  IsRunning p = p.turn_status ≡ some "inProgress"

  -- The turn ended, or the thread was last touched, before the cutoff; a thread with no moment of an
  -- update counts by its end only.
  abbrev pub IsStale : ℤ → ThreadProjection V → Type 0
  IsStale cutoff p =
      HasEnded cutoff p.finished_at_ms ⊎ ((pos 0 <ℤ p.updated_at_ms) × (p.updated_at_ms <ℤ cutoff))

  -- What an eviction may make of a thread: one that stays is as it was.
  abbrev pub IsSwept : ℤ → Option (ThreadProjection V) → Option (ThreadProjection V) → Type 0
  IsSwept cutoff none after = after ≡ none
  IsSwept cutoff (some p) after =
      ((after ≡ none) × IsStale cutoff p × (¬ IsRunning p))
      ⊎ ((after ≡ some p) × (IsRunning p ⊎ (¬ IsStale cutoff p)))

  stale :
      (cutoff : ℤ) (p : ThreadProjection V)
      → ((is_stale cutoff p ≡ true) × IsStale cutoff p)
        ⊎ ((is_stale cutoff p ≡ false) × (¬ IsStale cutoff p))
  stale cutoff p = elim (Option-cases p.finished_at_ms) [
    | inl e ↦ rw e (go none)
    | inr (t, e) ↦ rw e (go (some t))
  ]
    where
      go :
          (finished : Option ℤ)
          → (((before cutoff finished
                  || ltb_ℤ (pos 0) p.updated_at_ms && ltb_ℤ p.updated_at_ms cutoff)
                ≡ true)
              × (HasEnded cutoff finished
                  ⊎ ((pos 0 <ℤ p.updated_at_ms) × (p.updated_at_ms <ℤ cutoff))))
            ⊎ (((before cutoff finished
                    || ltb_ℤ (pos 0) p.updated_at_ms && ltb_ℤ p.updated_at_ms cutoff)
                  ≡ false)
                × (¬ (
                    HasEnded cutoff finished
                    ⊎ ((pos 0 <ℤ p.updated_at_ms) × (p.updated_at_ms <ℤ cutoff)))))
      go none = ground arith
      go (some t) = ground arith

  thread-IsSwept :
      (cutoff : ℤ) (o : Option (ThreadProjection V)) → IsSwept cutoff o (unless_evictable cutoff o)
  unfolding is_evictable
  thread-IsSwept cutoff none = refl
  thread-IsSwept cutoff (some p) = elim (stale cutoff p) [
    | inr (e, fresh) ↦ inr (rw e refl, inr fresh)
    | inl (e, old) ↦ elim (running p.turn_status) [
      | inl (t, runs) ↦ inr (rw (e, t) refl, inl runs)
      | inr (t, idle) ↦ inl (rw (e, t) refl, old, idle)
    ]
  ]

  -- An eviction takes just the threads that are stale at the cutoff and have no turn that runs; any
  -- other stays as it was. The threads have distinct names.
  pub evict_lem :
      (cutoff : ℤ) (id : String) (projector : EventProjector V)
      → Distinct (keys projector)
      → IsSwept cutoff
          (projection id projector)
          (projection id (evict_finished_before cutoff projector).1)
  evict_lem cutoff id projector d =
      subst (IsSwept cutoff (projection id projector))
        (sym (evicted_projection cutoff id projector d))
        (thread-IsSwept cutoff (projection id projector))
