-- ===== src/Interactive/Offers.antt =====
-- rust/crates/app-server/src/lib.rs: what is offered as a decision.
use codex_telegram_bridge.Prelude.Int.{int_ord}
use codex_telegram_bridge.Prelude.{
  String, ◌≡◌, refl, sym, subst, inl, inr, Bool, true, false, some, List, [], ◌∷◌, arith,
  Bool-cases, Option-cases, unwrap_or, retain, Elem, success, string_ord, nat_ord, pair_ord,
  option_ord, list_ord, ◌==◌, ◌||◌,
}
use codex_telegram_bridge.Json.{JsonApi, IsJson}
use codex_telegram_bridge.Interactive.Decisions.{
  accept, DecisionKind, simple_kind, is_simple, amendment_kind, approval_decision_kind, is_decision,
  simple_approval, modern_default, legacy_default, advertised, is_offered, legacy_payload,
  accept_for_session, decline, cancel, legacy_word, is_object, grant, permissions_payload,
  exec_policy_amendment, network_policy_amendment,
}

retained :
    {A : Type 0} (keep : A → Bool) (d : A) (xs : List A) → Elem d (retain keep xs) → keep d ≡ true
retained keep d [] h = absurd h
retained keep d (x ∷ xs) h = elim (Bool-cases (keep x)) [
  | inl kept ↦ elim (rw (kept, retain) at h) [
    | inl same ↦ subst (λ y. keep y ≡ true) same kept
    | inr later ↦ retained keep d xs later
  ]
  | inr left ↦ retained keep d xs (rw (left, retain) at h)
]

module _ (api : JsonApi) (laws : IsJson api) where
  open api use {Value}

  pub offered-Elem :
      (d : Value) (available : List Value) → is_offered api d available ≡ true → Elem d available
  offered-Elem d [] h = absurd (ground arith)
  offered-Elem d (v ∷ vs) h = elim (Bool-cases (api.equal v d)) [
    | inl same ↦ inl (laws.eq_of_equal v d same)
    | inr differs ↦ inr (offered-Elem d vs (ground arith))
  ]

  pub Elem-offered :
      (d : Value) (available : List Value) → Elem d available → is_offered api d available ≡ true
  Elem-offered d [] h = absurd h
  Elem-offered d (v ∷ vs) (inl same) = rw (sym same) (ground (arith, laws.equal_self v))
  Elem-offered d (v ∷ vs) (inr later) = ground (arith, Elem-offered d vs later)

  -- The words of the defaults are simple decisions.
  word-simple :
      (word : String) (kind : DecisionKind)
      → simple_kind word ≡ some kind
      → is_simple kind ≡ true
      → simple_approval api (api.string word) ≡ true
  unfolding simple_approval approval_decision_kind
  word-simple word kind e simple = ground (arith, laws.as_str-string word)

  pub default-simple : (d : Value) → Elem d (legacy_default api) → simple_approval api d ≡ true
  default-simple d (inl e) =
      subst (λ v. simple_approval api v ≡ true) e (word-simple "accept" accept refl refl)
  default-simple d (inr (inl e)) =
      subst (λ v. simple_approval api v ≡ true) e
        (word-simple "acceptForSession" accept_for_session refl refl)
  default-simple d (inr (inr (inl e))) =
      subst (λ v. simple_approval api v ≡ true) e (word-simple "decline" decline refl refl)
  default-simple d (inr (inr (inr (inl e)))) =
      subst (λ v. simple_approval api v ≡ true) e (word-simple "cancel" cancel refl refl)
  default-simple d (inr (inr (inr (inr h)))) = absurd h

  pub simple-decision : (d : Value) → simple_approval api d ≡ true → is_decision api d ≡ true
  unfolding simple_approval
  simple-decision d h = ground arith

  pub modern-legacy : (d : Value) → Elem d (modern_default api) → Elem d (legacy_default api)
  modern-legacy d (inl e) = inl e
  modern-legacy d (inr (inl e)) = inr (inl e)
  modern-legacy d (inr (inr (inl e))) = inr (inr (inl e))
  modern-legacy d (inr (inr (inr h))) = absurd h

  pub advertised-keep :
      (keep : Value → Bool) (default : List Value) (params d : Value)
      → (Elem d default → keep d ≡ true)
      → Elem d (advertised api keep default params)
      → keep d ≡ true
  advertised-keep keep default params d of_default h =
      elim (Option-cases (api.get "availableDecisions" params)) [
        | inl e ↦ of_default (subst (Elem d) (rw (e, advertised) refl) h)
        | inr (value, e) ↦ retained keep d (unwrap_or [] (api.as_array value)) (
            subst (Elem d) {x = advertised api keep default params}
              {y = retain keep (unwrap_or [] (api.as_array value))} (rw (e, advertised) refl) h)
      ]

  amendment-not_simple :
      (d : Value) (kind : DecisionKind) → amendment_kind api d ≡ some kind → is_simple kind ≡ false
  amendment-not_simple d kind h = ground arith

  word_of :
      (kind : DecisionKind)
      → is_simple kind ≡ true
      → (word : String) × (legacy_word kind ≡ some word)
  word_of accept h = ("approved", refl)
  word_of accept_for_session h = ("approved_for_session", refl)
  word_of decline h = ("denied", refl)
  word_of cancel h = ("abort", refl)
  word_of exec_policy_amendment h = absurd (ground arith)
  word_of network_policy_amendment h = absurd (ground arith)

  -- A simple decision has its word in the older protocol.
  pub legacy_answer :
      (d : Value) → simple_approval api d ≡ true → (v : Value) × (legacy_payload api d ≡ success v)
  unfolding simple_approval approval_decision_kind
  legacy_answer d h = elim (Option-cases (api.as_str d)) [
    | inl e ↦ elim (Option-cases (amendment_kind api d)) [
      | inl n ↦ absurd (ground arith)
      | inr (kind, k) ↦ absurd (ground (arith, amendment-not_simple d kind k))
    ]
    | inr (value, e) ↦ elim (Option-cases (simple_kind value)) [
      | inl n ↦ absurd (ground arith)
      | inr (kind, k) ↦
          let (word, w) = word_of kind (ground arith) in
          (api.object (("decision", api.string word) ∷ []), rw (e, k, w, legacy_payload) refl)
    ]
  ]

  abbrev pub grant_fields : Value → String → List (String × Value)
  grant_fields asked scope = ("permissions", asked) ∷ ("scope", api.string scope) ∷ []

  pub grant-answerable :
      (asked : Value) (scope : String)
      → is_object api asked ≡ true
      → (scope == "turn" || scope == "session") ≡ true
      → permissions_payload api (grant api asked scope) ≡ success (grant api asked scope)
  unfolding permissions_payload
  grant-answerable asked scope o s =
      let fields = grant_fields asked scope in
      ground (
        arith,
        laws.as_object-object fields,
        laws.get-object "permissions" fields (refl, (refl, tt)),
        laws.get-object "scope" fields (refl, (refl, tt)),
        laws.get-object "strictAutoReview" fields (refl, (refl, tt)),
        laws.as_str-string scope,
      )
