-- ===== src/Workflow/Cases.antt =====
-- Case rules for the methods' early returns, and what `finish_prompt` writes.
use codex_telegram_bridge.Prelude.{
  ◌≡◌, refl, inl, inr, Bool, true, false, Option, none, some, String, List, [], ◌∷◌, ◌==◌,
  string_ord, option_ord, if◌then◌else◌, arith, Option-cases, Bool-cases, eq_iff, eq_self, is_blank,
  ◌||◌,
}
use codex_telegram_bridge.Prelude.Map.{keys, get, get-insert, get_entry, contains, Distinct, firsts}
use codex_telegram_bridge.Workflow.Types.{
  PromptIntent, TurnTerminalStatus, intent_state, Result, ok, err, CodexWorkflowProjection, Step,
}
use codex_telegram_bridge.Workflow.Prompts.{required_intent, finish_turn, finish_prompt}
use codex_telegram_bridge.Workflow.Delivery.{
  is_affected, affected_keys, finish_all, observe_turn_completed,
}

-- A call under `?`: an error returns at once.
pub try_cases :
    {A B : Type 0} (P : CodexWorkflowProjection → Type 0) (r : Result A)
    (p : CodexWorkflowProjection) (f : A → Step B)
    → P p
    → ((a : A) → r ≡ ok a → P (f a).1)
    → P (elim r as (λ _. Step B) [ err e ↦ (err e, p) | ok a ↦ f a ]).1
try_cases P (err e) p f stop go = stop
try_cases P (ok a) p f stop go = go a refl

-- An early return under `if`.
pub if_cases :
    {B : Type 0} (P : CodexWorkflowProjection → Type 0) (b : Bool) (x y : Step B)
    → (b ≡ true → P x.1)
    → (b ≡ false → P y.1)
    → P (if b then x else y).1
if_cases P true x y h k = h refl
if_cases P false x y h k = k refl

-- A method that starts with `required_intent_mut(id)?`, where the intent is there.
pub intent_found :
    {B : Type 0} (P : CodexWorkflowProjection → Type 0) (id : String) (p : CodexWorkflowProjection)
    (f : PromptIntent → Step B) (i : PromptIntent)
    → get id p.intents ≡ some i
    → P (f i).1
    → P (elim (required_intent id p) as (λ _. Step B) [ err e ↦ (err e, p) | ok i ↦ f i ]).1
unfolding required_intent
intent_found P id p f i e h = rw e h

pub option_found :
    {A B : Type 0} (P : CodexWorkflowProjection → Type 0) (o : Option A) (x : Step B)
    (f : A → Step B) (a : A)
    → o ≡ some a
    → P (f a).1
    → P (elim o as (λ _. Step B) [ none ↦ x | some a ↦ f a ]).1
option_found P o x f a e h = rw e h

-- A match on an option.
pub option_cases :
    {A B : Type 0} (P : CodexWorkflowProjection → Type 0) (o : Option A) (x : Step B)
    (f : A → Step B)
    → (o ≡ none → P x.1)
    → ((a : A) → o ≡ some a → P (f a).1)
    → P (elim o as (λ _. Step B) [ none ↦ x | some a ↦ f a ]).1
option_cases P none x f h k = h refl
option_cases P (some a) x f h k = k a refl

pub required_intent-get :
    (id : String) (p : CodexWorkflowProjection) (i : PromptIntent)
    → required_intent id p ≡ ok i
    → get id p.intents ≡ some i
unfolding required_intent
required_intent-get id p i h = ground arith

-- A method that starts with `required_intent_mut(id)?`.
pub intent_cases :
    {B : Type 0} (P : CodexWorkflowProjection → Type 0) (id : String) (p : CodexWorkflowProjection)
    (f : PromptIntent → Step B)
    → P p
    → ((i : PromptIntent) → get id p.intents ≡ some i → P (f i).1)
    → P (elim (required_intent id p) as (λ _. Step B) [ err e ↦ (err e, p) | ok i ↦ f i ]).1
intent_cases P id p f stop go =
    try_cases P (required_intent id p) p f stop λ i e. go i (required_intent-get id p i e)

-- A prompt with a turn is finished; one with none stays.
abbrev pub finish_intent : TurnTerminalStatus → PromptIntent → PromptIntent
finish_intent status i = elim i.turn_id [
  | none ↦ i
  | some _ ↦ record i { state = intent_state status }
]

abbrev pub finish_found : TurnTerminalStatus → Option PromptIntent → Option PromptIntent
finish_found status none = none
finish_found status (some i) = some (finish_intent status i)

pub get-finish_prompt :
    (id : String) (status : TurnTerminalStatus) (p : CodexWorkflowProjection) (j : String)
    → get j (finish_prompt id status p).1.intents
      ≡ (if id == j then finish_found status (get j p.intents) else get j p.intents)
unfolding finish_prompt finish_turn
get-finish_prompt id status p j = elim (Option-cases (get id p.intents)) [
  | inl e ↦ ground (arith, eq_iff id j)
  | inr (i, e) ↦
      ground
        (arith, get-insert id j (record i { state = intent_state status }) p.intents, eq_iff id j)
]

finish_found_idem :
    (status : TurnTerminalStatus) (o : Option PromptIntent)
    → finish_found status (finish_found status o) ≡ finish_found status o
finish_found_idem status o = ground arith

-- Each of the listed prompts is finished, and no other.
pub get-finish_all :
    (ids : List String) (status : TurnTerminalStatus) (p : CodexWorkflowProjection) (j : String)
    → get j (finish_all ids status p).1.intents
      ≡ (if contains j ids then finish_found status (get j p.intents) else get j p.intents)
unfolding finish_all
get-finish_all [] status p j = refl
get-finish_all (id ∷ ids) status p j = ground (
  arith,
  get-finish_all ids status (finish_prompt id status p).1 j,
  get-finish_prompt id status p j,
  finish_found_idem status (get j p.intents),
)

abbrev pub is_affected_found : String → String → Option PromptIntent → Bool
is_affected_found thread_id turn_id none = false
is_affected_found thread_id turn_id (some i) = is_affected thread_id turn_id i

contains-affected_keys_none :
    (thread_id turn_id j : String) (es : List (String × PromptIntent))
    → contains j (firsts es) ≡ false
    → contains j (affected_keys thread_id turn_id es) ≡ false
contains-affected_keys_none thread_id turn_id j [] h = refl
contains-affected_keys_none thread_id turn_id j ((k, i) ∷ es) h =
    ground (arith, contains-affected_keys_none thread_id turn_id j es)

-- The keys that `observe_turn_completed` collects are those of the affected prompts.
pub contains-affected_keys :
    (thread_id turn_id j : String) (es : List (String × PromptIntent))
    → Distinct (firsts es)
    → contains j (affected_keys thread_id turn_id es)
      ≡ is_affected_found thread_id turn_id (get_entry j es)
contains-affected_keys thread_id turn_id j [] d = refl
contains-affected_keys thread_id turn_id j ((k, i) ∷ es) d = elim (Bool-cases (k == j)) [
  | inl same ↦
      let absent = contains-affected_keys_none thread_id turn_id k es d.0 in
      rw (← ((eq_iff k j).0 same), eq_self k)
        (elim (Bool-cases (is_affected thread_id turn_id i)) [
          | inl hit ↦ rw hit (rw (eq_self k))
          | inr miss ↦ rw miss absent
        ])
  | inr other ↦ elim (Bool-cases (is_affected thread_id turn_id i)) [
    | inl hit ↦ rw (hit, other) (contains-affected_keys thread_id turn_id j es d.1)
    | inr miss ↦ rw (miss, other) (contains-affected_keys thread_id turn_id j es d.1)
  ]
]

-- What the end of a turn makes of a prompt.
abbrev pub complete_found :
    String → String → TurnTerminalStatus → Option PromptIntent → Option PromptIntent
complete_found thread_id turn_id status o =
    if is_affected_found thread_id turn_id o then finish_found status o else o

pub get-observe_turn_completed :
    (thread_id turn_id : String) (status : TurnTerminalStatus) (p : CodexWorkflowProjection)
    (j : String)
    → is_blank thread_id || is_blank turn_id ≡ false
    → Distinct (keys p.intents)
    → get j (observe_turn_completed thread_id turn_id status p).1.intents
      ≡ complete_found thread_id turn_id status (get j p.intents)
unfolding observe_turn_completed get
get-observe_turn_completed thread_id turn_id status p j h d = rw h (
    rw (← (contains-affected_keys thread_id turn_id j p.intents.entries d))
      (get-finish_all (affected_keys thread_id turn_id p.intents.entries) status _ j))
