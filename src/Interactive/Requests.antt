-- ===== src/Interactive/Requests.antt =====
-- rust/crates/app-server/src/lib.rs: an interactive request is read, and answered.
use codex_telegram_bridge.Prelude.Map.{values}
use codex_telegram_bridge.Prelude.Int.{int_ord}
use codex_telegram_bridge.Prelude.{
  String, Bool, false, not, ◌&&◌, Option, none, some, List, [], ◌∷◌, if◌then◌else◌, ◌>>=◌,
  unwrap_or, has_some, any, Outcome, success, failure, is_blank, trimmed, ◌==◌, string_ord, nat_ord,
  pair_ord, option_ord, list_ord, ◌||◌,
}
use codex_telegram_bridge.Json.{JsonApi, text_of, get_either}
use codex_telegram_bridge.Interactive.Types.{
  approval, user_input, AgentServerRequest, UserInputQuestion, UserInputRequest,
  InteractiveApprovalRequest, InteractiveServerRequest, InteractiveRequestError, method_of,
  unsupported_method, unknown_question, missing_thread_id, missing_question_id, secret_input,
  unavailable_approval_decision,
}
use codex_telegram_bridge.Interactive.Decisions.{
  interactive_approval_decisions, interactive_approval_is_available, approval_response_payload,
}

module _ (api : JsonApi) where
  open api use {
    Value, get as field, as_str, as_bool, as_u64, as_array, as_object, string, object, array, put,
  }

  abbrev string_field : String → Value → String
  string_field name params = unwrap_or "" (text_of api name params)

  -- The nested name is trimmed, the direct one is not.
  unfoldable pub required_thread_id : Value → Outcome InteractiveRequestError String
  required_thread_id params =
      let direct = string_field "threadId" params in
      let nested = unwrap_or "" (field "thread" params >>= text_of api "id") in
      if not (is_blank direct)
      then success direct
      else if is_blank nested
      then failure missing_thread_id
      else success (trimmed nested)

  abbrev value_or_empty : Option Value → Value
  value_or_empty value = unwrap_or (string "") value

  abbrev normalized_legacy : Value → Value
  normalized_legacy params =
      let thread_id = value_or_empty (get_either api "conversationId" "threadId" params) in
      let turn_id = value_or_empty (field "turnId" params) in
      let item_id = value_or_empty (get_either api "callId" "itemId" params) in
      put "itemId" item_id (put "turnId" turn_id (put "threadId" thread_id params))

  unfoldable pub normalize_interactive_approval_params : String → Value → Value
  normalize_interactive_approval_params method params =
      if has_some (as_object params)
        && (method == "execCommandApproval" || method == "applyPatchApproval")
      then normalized_legacy params
      else params

  abbrev question_from : Value → Outcome InteractiveRequestError UserInputQuestion
  question_from value = elim (text_of api "id" value) [
    | none ↦ failure missing_question_id
    | some id ↦
        if is_blank id
        then failure missing_question_id
        else success (record {
          id = id;
          question = unwrap_or "" (text_of api "question" value);
          is_secret = unwrap_or false (field "isSecret" value >>= as_bool);
        })
  ]

  -- Values that are no objects are skipped.
  unfoldable pub questions_from :
      List Value → Outcome InteractiveRequestError (List UserInputQuestion)
  questions_from [] = success []
  questions_from (v ∷ vs) =
      let rest = questions_from vs in
      elim (as_object v) [
        | none ↦ rest
        | some _ ↦ elim (question_from v) [
          | failure e ↦ failure e
          | success q ↦ elim rest [ failure e ↦ failure e | success qs ↦ success (q ∷ qs) ]
        ]
      ]

  unfoldable pub parse_user_input :
      AgentServerRequest Value → Outcome InteractiveRequestError (UserInputRequest Value)
  unfolding required_thread_id questions_from
  parse_user_input request = elim (required_thread_id request.params) [
    | failure e ↦ failure e
    | success thread_id ↦
        elim (questions_from (unwrap_or [] (field "questions" request.params >>= as_array))) [
          | failure e ↦ failure e
          | success questions ↦ success (record {
            request = request;
            thread_id = thread_id;
            turn_id = string_field "turnId" request.params;
            item_id = string_field "itemId" request.params;
            questions = questions;
            auto_resolution_ms = field "autoResolutionMs" request.params >>= as_u64;
          })
        ]
  ]

  unfoldable pub parse_approval :
      AgentServerRequest Value → Outcome InteractiveRequestError (InteractiveApprovalRequest Value)
  unfolding method_of normalize_interactive_approval_params required_thread_id
      interactive_approval_decisions
  parse_approval request =
      let params = normalize_interactive_approval_params request.method request.params in
      if has_some (method_of request.method)
      then elim (required_thread_id params) [
        | failure e ↦ failure e
        | success thread_id ↦ success (record {
          request = request;
          thread_id = thread_id;
          turn_id = string_field "turnId" params;
          item_id = string_field "itemId" params;
          method = request.method;
          params = params;
          available_decisions = interactive_approval_decisions api request.method params;
        })
      ]
      else failure (unsupported_method request.method)

  unfoldable pub parse_request :
      AgentServerRequest Value → Outcome InteractiveRequestError (InteractiveServerRequest Value)
  unfolding parse_user_input parse_approval
  parse_request request =
      if request.method == "item/tool/requestUserInput"
      then elim (parse_user_input request) [
        | failure e ↦ failure e
        | success r ↦ success (user_input r)
      ]
      else elim (parse_approval request) [
        | failure e ↦ failure e
        | success r ↦ success (approval r)
      ]

  abbrev pub contains_secret : UserInputRequest Value → Bool
  contains_secret r = any (λ q. q.is_secret) r.questions

  abbrev pub is_known : UserInputRequest Value → String → Bool
  is_known r id = any (λ q. q.id == id) r.questions

  abbrev strings_of : List String → List Value
  strings_of [] = []
  strings_of (s ∷ ss) = string s ∷ strings_of ss

  unfoldable pub encoded_answers :
      UserInputRequest Value
      → List (String × List String)
      → Outcome InteractiveRequestError (List (String × Value))
  encoded_answers r [] = success []
  encoded_answers r ((id, values) ∷ rest) =
      let others = encoded_answers r rest in
      if is_known r id
      then elim others [
        | failure e ↦ failure e
        | success fields ↦
            success ((id, object (("answers", array (strings_of values)) ∷ [])) ∷ fields)
      ]
      else failure (unknown_question id)

  unfoldable pub user_input_response :
      UserInputRequest Value → List (String × List String) → Outcome InteractiveRequestError Value
  unfolding encoded_answers
  user_input_response r answers =
      if contains_secret r then failure secret_input else elim (encoded_answers r answers) [
        | failure e ↦ failure e
        | success fields ↦ success (object (("answers", object fields) ∷ []))
      ]

  unfoldable pub approval_response :
      InteractiveApprovalRequest Value → Value → Outcome InteractiveRequestError Value
  unfolding interactive_approval_is_available approval_response_payload
  approval_response r decision =
      if interactive_approval_is_available api r.method decision r.available_decisions
      then approval_response_payload api r.method decision
      else failure unavailable_approval_decision
