-- ===== src/Interactive/Decisions.antt =====
-- rust/crates/app-server/src/lib.rs: the decisions on an approval, and the answer that each becomes.
use codex_telegram_bridge.Prelude.Int.{int_ord}
use codex_telegram_bridge.Prelude.{
  String, Bool, true, false, not, ◌&&◌, Option, none, some, List, [], ◌∷◌, if◌then◌else◌, ◌>>=◌,
  unwrap_or, has_some, length, retain, any, Outcome, success, failure, is_blank, ◌==◌, string_ord,
  nat_ord, pair_ord, option_ord, list_ord, ◌||◌,
}
use codex_telegram_bridge.Json.{JsonApi, text_of, get_either}
use codex_telegram_bridge.Interactive.Types.{
  InteractiveRequestError, ApprovalMethod, method_of, unsupported_method, invalid_approval_decision,
  command_execution, file_change, permissions, exec_command, apply_patch,
}

-- The kinds of decision that the protocol knows.
pub data DecisionKind : Type 0 where
  accept accept_for_session decline cancel : DecisionKind
  exec_policy_amendment network_policy_amendment : DecisionKind

abbrev pub simple_kind : String → Option DecisionKind
simple_kind value =
    if value == "accept"
    then some accept
    else if value == "acceptForSession"
    then some accept_for_session
    else if value == "decline"
    then some decline
    else if value == "cancel"
    then some cancel
    else none

abbrev pub is_simple : DecisionKind → Bool
is_simple accept = true
is_simple accept_for_session = true
is_simple decline = true
is_simple cancel = true
is_simple exec_policy_amendment = false
is_simple network_policy_amendment = false

abbrev pub legacy_word : DecisionKind → Option String
legacy_word accept = some "approved"
legacy_word accept_for_session = some "approved_for_session"
legacy_word decline = some "denied"
legacy_word cancel = some "abort"
legacy_word exec_policy_amendment = none
legacy_word network_policy_amendment = none

module _ (api : JsonApi) where
  open api use {
    Value, get as field, as_str, as_bool, as_array, as_object, string, object, array, equal,
  }

  abbrev pub is_object : Value → Bool
  is_object value = has_some (as_object value)

  abbrev pub all_texts : List Value → Bool
  all_texts [] = true
  all_texts (v ∷ vs) = has_some (as_str v) && all_texts vs

  abbrev pub object_in : String → Value → Option Value
  object_in key value = field key value >>= λ v. if is_object v then some v else none

  abbrev pub kind_if : Bool → DecisionKind → Option DecisionKind
  kind_if b kind = if b then some kind else none

  abbrev pub exec_amendment_kind : Value → Option DecisionKind
  exec_amendment_kind detail = field "execpolicy_amendment" detail >>= as_array >>= λ amendment.
      kind_if (all_texts amendment) exec_policy_amendment

  abbrev pub is_action : Option String → Bool
  is_action none = false
  is_action (some action) = action == "allow" || action == "deny"

  abbrev pub is_host : Option String → Bool
  is_host none = false
  is_host (some host) = not (is_blank host)

  abbrev pub network_amendment_kind : Value → Option DecisionKind
  network_amendment_kind detail = object_in "network_policy_amendment" detail >>= λ amendment.
      kind_if (is_action (text_of api "action" amendment) && is_host (text_of api "host" amendment))
        network_policy_amendment

  abbrev pub amendment_kind : Value → Option DecisionKind
  amendment_kind decision = elim (object_in "acceptWithExecpolicyAmendment" decision) [
    | some detail ↦ exec_amendment_kind detail
    | none ↦ object_in "applyNetworkPolicyAmendment" decision >>= network_amendment_kind
  ]

  abbrev pub has_one : List (String × Value) → Bool
  has_one fields = length fields == 1

  unfoldable pub approval_decision_kind : Value → Option DecisionKind
  approval_decision_kind decision = elim (as_str decision) [
    | some value ↦ simple_kind value
    | none ↦
        as_object decision >>= λ fields. if has_one fields then amendment_kind decision else none
  ]

  abbrev pub is_decision : Value → Bool
  is_decision value = has_some (approval_decision_kind value)

  unfoldable pub simple_approval : Value → Bool
  unfolding approval_decision_kind
  simple_approval value = elim (approval_decision_kind value) [
    | none ↦ false
    | some kind ↦ is_simple kind
  ]

  abbrev pub strings : List String → List Value
  strings [] = []
  strings (s ∷ ss) = string s ∷ strings ss

  abbrev pub modern_default : List Value
  modern_default = strings ("accept" ∷ "acceptForSession" ∷ "decline" ∷ [])

  abbrev pub legacy_default : List Value
  legacy_default = strings ("accept" ∷ "acceptForSession" ∷ "decline" ∷ "cancel" ∷ [])

  -- The advertised decisions of a kind that may be offered, or the default without any.
  abbrev pub advertised : (Value → Bool) → List Value → Value → List Value
  advertised keep default params = elim (field "availableDecisions" params) [
    | none ↦ default
    | some value ↦ retain keep (unwrap_or [] (as_array value))
  ]

  abbrev pub grant : Value → String → Value
  grant permissions_asked scope =
      object (("permissions", permissions_asked) ∷ ("scope", string scope) ∷ [])

  abbrev pub grants : Value → List Value
  grants asked = grant asked "turn" ∷ grant asked "session" ∷ grant (object []) "turn" ∷ []

  abbrev pub is_empty_object : Value → Bool
  is_empty_object value = elim (as_object value) [
    | none ↦ false
    | some fields ↦ elim fields [ [] ↦ true | _ ∷ _ ↦ false ]
  ]

  abbrev pub permission_decisions : Value → List Value
  permission_decisions params = elim (get_either api "permissions" "requestedPermissions" params) [
    | none ↦ []
    | some asked ↦
        if is_object asked
        then (if is_empty_object asked then grant asked "turn" ∷ [] else grants asked)
        else []
  ]

  unfoldable pub decisions_for : ApprovalMethod → Value → List Value
  unfolding approval_decision_kind simple_approval
  decisions_for command_execution params = advertised is_decision modern_default params
  decisions_for exec_command params = legacy_default
  decisions_for file_change params = advertised simple_approval legacy_default params
  decisions_for apply_patch params = advertised simple_approval legacy_default params
  decisions_for permissions params = permission_decisions params

  unfoldable pub interactive_approval_decisions : String → Value → List Value
  unfolding decisions_for method_of
  interactive_approval_decisions method params = elim (method_of method) [
    | none ↦ []
    | some m ↦ decisions_for m params
  ]

  abbrev pub is_permissions : Option ApprovalMethod → Bool
  is_permissions none = false
  is_permissions (some command_execution) = false
  is_permissions (some file_change) = false
  is_permissions (some permissions) = true
  is_permissions (some exec_command) = false
  is_permissions (some apply_patch) = false

  abbrev pub is_offered : Value → List Value → Bool
  is_offered decision available = any (λ candidate. equal candidate decision) available

  unfoldable pub interactive_approval_is_available : String → Value → List Value → Bool
  unfolding approval_decision_kind method_of
  interactive_approval_is_available method decision available =
      if is_permissions (method_of method)
      then is_object decision && is_offered decision available
      else is_decision decision && is_offered decision available

  abbrev pub scope_fits : Option String → Option Value → Bool
  scope_fits none strict = false
  scope_fits (some scope) strict =
      scope == "turn"
      || scope == "session"
        && not (elim strict [ none ↦ false | some b ↦ unwrap_or false (as_bool b) ])

  abbrev pub strict_fits : Option Value → Bool
  strict_fits none = true
  strict_fits (some value) = has_some (as_bool value)

  unfoldable pub permissions_payload : Value → Outcome InteractiveRequestError Value
  permissions_payload decision =
      if is_object decision
        && has_some (object_in "permissions" decision)
        && strict_fits (field "strictAutoReview" decision)
        && scope_fits (text_of api "scope" decision) (field "strictAutoReview" decision)
      then success decision
      else failure invalid_approval_decision

  abbrev pub modern_payload : Value → Outcome InteractiveRequestError Value
  modern_payload decision = success (object (("decision", decision) ∷ []))

  abbrev pub legacy_payload : Value → Outcome InteractiveRequestError Value
  legacy_payload decision = elim (as_str decision >>= simple_kind >>= legacy_word) [
    | none ↦ failure invalid_approval_decision
    | some word ↦ success (object (("decision", string word) ∷ []))
  ]

  unfoldable pub payload_for :
      String → Option ApprovalMethod → Value → Outcome InteractiveRequestError Value
  payload_for method none decision = failure (unsupported_method method)
  payload_for method (some command_execution) decision = modern_payload decision
  payload_for method (some file_change) decision = modern_payload decision
  payload_for method (some permissions) decision = failure (unsupported_method method)
  payload_for method (some exec_command) decision = legacy_payload decision
  payload_for method (some apply_patch) decision = legacy_payload decision

  unfoldable pub approval_response_payload : String → Value → Outcome InteractiveRequestError Value
  unfolding permissions_payload payload_for approval_decision_kind method_of
  approval_response_payload method decision =
      if is_permissions (method_of method)
      then permissions_payload decision
      else if is_decision decision
      then payload_for method (method_of method) decision
      else failure invalid_approval_decision
