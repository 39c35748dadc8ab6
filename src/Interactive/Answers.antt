-- ===== src/Interactive/Answers.antt =====
-- rust/crates/app-server/src/lib.rs: every decision that is offered can be answered, and no other.
use codex_telegram_bridge.Prelude.Int.{int_ord}
use codex_telegram_bridge.Prelude.{
  String, ◌≡◌, refl, subst, inl, inr, true, false, some, List, [], Elem, success, ◌==◌, string_ord,
  nat_ord, pair_ord, option_ord, list_ord, ◌||◌, ◌∷◌, Bool-cases, Option-cases, ◌∙◌,
}
use codex_telegram_bridge.Json.{JsonApi, IsJson, get_either}
use codex_telegram_bridge.Interactive.Types.{
  ApprovalMethod, method_of, permissions, command_execution, file_change, exec_command, apply_patch,
}
use codex_telegram_bridge.Interactive.Offers.{
  Elem-offered, grant_fields, grant-answerable, default-simple, simple-decision, modern-legacy,
  advertised-keep, legacy_answer,
}
use codex_telegram_bridge.Interactive.Decisions.{
  is_object, is_decision, grant, grants, is_permissions, interactive_approval_is_available,
  permissions_payload, payload_for, approval_response_payload, simple_approval, modern_default,
  legacy_default, is_empty_object, permission_decisions, decisions_for, legacy_payload,
}

module _ (api : JsonApi) (laws : IsJson api) where
  open api use {Value}

  -- An offered decision is available, and has an answer.
  abbrev pub IsAnswered : String → List Value → Value → Type 0
  IsAnswered method available d =
      (interactive_approval_is_available api method d available ≡ true)
      × ((v : Value) × (approval_response_payload api method d ≡ success v))

  decision-IsAnswered :
      (method : String) (m : ApprovalMethod) (available : List Value) (d v : Value)
      → method_of method ≡ some m
      → is_permissions api (some m) ≡ false
      → Elem d available
      → is_decision api d ≡ true
      → payload_for api method (some m) d ≡ success v
      → IsAnswered method available d
  unfolding interactive_approval_is_available approval_response_payload
  decision-IsAnswered method m available d v e n h dec pay = (
    rw (interactive_approval_is_available, e, n, dec) (Elem-offered api laws d available h),
    (v, rw (approval_response_payload, e, n, dec) pay),
  )

  grant-IsAnswered :
      (method scope : String) (available : List Value) (asked d : Value)
      → method_of method ≡ some permissions
      → Elem d available
      → is_object api asked ≡ true
      → (scope == "turn" || scope == "session") ≡ true
      → grant api asked scope ≡ d
      → IsAnswered method available d
  unfolding interactive_approval_is_available approval_response_payload
  grant-IsAnswered method scope available asked d e h o s same =
      let fields = grant_fields api laws asked scope in
      let shaped = subst (λ x. is_object api x ≡ true) same (laws.as_object-object fields) in
      let paid =
        subst (λ x. permissions_payload api x ≡ success x) same
          (grant-answerable api laws asked scope o s) in
      (
        rw (interactive_approval_is_available, e, shaped) (Elem-offered api laws d available h),
        (d, rw (approval_response_payload, e) paid),
      )

  granted-IsAnswered :
      (method : String) (available : List Value) (asked d : Value)
      → method_of method ≡ some permissions
      → Elem d available
      → is_object api asked ≡ true
      → Elem d (grants api asked)
      → IsAnswered method available d
  granted-IsAnswered method available asked d e h o (inl same) =
      grant-IsAnswered method "turn" available asked d e h o refl same
  granted-IsAnswered method available asked d e h o (inr (inl same)) =
      grant-IsAnswered method "session" available asked d e h o refl same
  granted-IsAnswered method available asked d e h o (inr (inr (inl same))) =
      grant-IsAnswered method "turn" available (api.object []) d e h (laws.as_object-object []) refl
        same
  granted-IsAnswered method available asked d e h o (inr (inr (inr none_left))) = absurd none_left

  simple-IsAnswered :
      (method : String) (m : ApprovalMethod) (available : List Value) (d : Value)
      → method_of method ≡ some m
      → is_permissions api (some m) ≡ false
      → Elem d available
      → simple_approval api d ≡ true
      → payload_for api method (some m) d ≡ legacy_payload api d
      → IsAnswered method available d
  simple-IsAnswered method m available d e n h simple pay =
      let (v, answered) = legacy_answer api laws d simple in
      decision-IsAnswered method m available d v e n h (simple-decision api laws d simple)
        (pay ∙ answered)

  permission-IsAnswered :
      (method : String) (params d : Value)
      → method_of method ≡ some permissions
      → Elem d (permission_decisions api params)
      → IsAnswered method (permission_decisions api params) d
  permission-IsAnswered method params d e h =
      elim (Option-cases (get_either api "permissions" "requestedPermissions" params)) [
        | inl n ↦
            let all : permission_decisions api params ≡ [] = rw (n, permission_decisions) refl in
            absurd (subst (Elem d) all h)
        | inr (asked, a) ↦ elim (Bool-cases (is_object api asked)) [
          | inr o ↦
              let all : permission_decisions api params ≡ [] =
                rw (a, o, permission_decisions) refl in
              absurd (subst (Elem d) all h)
          | inl o ↦ elim (Bool-cases (is_empty_object api asked)) [
            | inl nothing ↦
                let all : permission_decisions api params ≡ grant api asked "turn" ∷ [] =
                  rw (a, o, nothing, permission_decisions) refl in
                elim (subst (Elem d) all h) [
                  | inl same ↦
                      grant-IsAnswered method "turn" (permission_decisions api params) asked d e h o
                        refl same
                  | inr none_left ↦ absurd none_left
                ]
            | inr some_asked ↦
                let all : permission_decisions api params ≡ grants api asked =
                  rw (a, o, some_asked, permission_decisions) refl in
                granted-IsAnswered method (permission_decisions api params) asked d e h o
                  (subst (Elem d) all h)
          ]
        ]
      ]

  abbrev modern_answer : Value → Value
  modern_answer d = api.object (("decision", d) ∷ [])

  pub offer-IsAnswered :
      (method : String) (m : ApprovalMethod) (params d : Value)
      → method_of method ≡ some m
      → Elem d (decisions_for api m params)
      → IsAnswered method (decisions_for api m params) d
  unfolding decisions_for payload_for
  offer-IsAnswered method command_execution params d e h =
      decision-IsAnswered method command_execution (decisions_for api command_execution params) d
        (modern_answer d) e refl h
        (advertised-keep api laws (is_decision api) (modern_default api) params d
          (λ k. simple-decision api laws d (default-simple api laws d (modern-legacy api laws d k)))
          h)
        refl
  offer-IsAnswered method file_change params d e h =
      decision-IsAnswered method file_change (decisions_for api file_change params) d
        (modern_answer d) e refl h
        (simple-decision api laws d (
          advertised-keep api laws (simple_approval api) (legacy_default api) params d
            (default-simple api laws d) h))
        refl
  offer-IsAnswered method permissions params d e h = permission-IsAnswered method params d e h
  offer-IsAnswered method exec_command params d e h =
      simple-IsAnswered method exec_command (legacy_default api) d e refl h
        (default-simple api laws d h) refl
  offer-IsAnswered method apply_patch params d e h =
      simple-IsAnswered method apply_patch (decisions_for api apply_patch params) d e refl h
        (advertised-keep api laws (simple_approval api) (legacy_default api) params d
          (default-simple api laws d) h)
        refl
