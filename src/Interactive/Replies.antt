-- ===== src/Interactive/Replies.antt =====
-- rust/crates/app-server/src/lib.rs: an answer to a request that was read.
use codex_telegram_bridge.Interactive.Offers.{offered-Elem}
use codex_telegram_bridge.Prelude.Int.{int_ord}
use codex_telegram_bridge.Prelude.{
  ◌≡◌, inl, inr, some, arith, Option-cases, Outcome-cases, success, string_ord, nat_ord, pair_ord,
  option_ord, list_ord, String, sym, subst, true, List, [], ◌∷◌, Elem, all, refl, Bool, not, ◌&&◌,
  is_success,
}
use codex_telegram_bridge.Interactive.Answers.{IsAnswered, offer-IsAnswered}
use codex_telegram_bridge.Json.{JsonApi, IsJson}
use codex_telegram_bridge.Interactive.Types.{
  AgentServerRequest, InteractiveApprovalRequest, ApprovalMethod, method_of, UserInputRequest,
}
use codex_telegram_bridge.Interactive.Requests.{
  required_thread_id, normalize_interactive_approval_params, parse_approval, is_known,
  encoded_answers, approval_response, contains_secret, user_input_response,
}
use codex_telegram_bridge.Interactive.Decisions.{
  decisions_for, interactive_approval_decisions, interactive_approval_is_available,
}

module _ (api : JsonApi) where
  open api use {Value}

  -- A request that was read knows its method, and what it offers follows from its params.
  abbrev IsRead : InteractiveApprovalRequest Value → Type 0
  IsRead r =
      (m : ApprovalMethod) × (method_of r.method ≡ some m)
      × (r.available_decisions ≡ decisions_for api m r.params)

  parse_approval-IsRead :
      (request : AgentServerRequest Value) (r : InteractiveApprovalRequest Value)
      → parse_approval api request ≡ success r
      → IsRead r
  unfolding parse_approval interactive_approval_decisions
  parse_approval-IsRead request r h =
      let params = normalize_interactive_approval_params api request.method request.params in
      elim (Option-cases (method_of request.method)) [
        | inl n ↦ absurd (ground arith)
        | inr (m, e) ↦ elim (Outcome-cases (required_thread_id api params)) [
          | inl (t, f) ↦ (m, ground arith, ground arith)
          | inr (x, f) ↦ absurd (ground arith)
        ]
      ]

module _ (api : JsonApi) (laws : IsJson api) where
  open api use {Value}

  -- What a request that was read offers can be answered with: the response exists.
  pub offered_answered :
      (request : AgentServerRequest Value) (r : InteractiveApprovalRequest Value) (d : Value)
      → parse_approval api request ≡ success r
      → Elem d r.available_decisions
      → (v : Value) × (approval_response api r d ≡ success v)
  unfolding approval_response
  offered_answered request r d h offered =
      let (m, e, all) = parse_approval-IsRead api request r h in
      let (free, answer) =
        subst (λ ds. IsAnswered api laws r.method ds d) (sym all)
          (offer-IsAnswered api laws r.method m r.params d e (subst (Elem d) all offered)) in
      (answer.0, rw free answer.1)

  -- A decision that has a response is one that the request offers.
  pub answered_offered :
      (r : InteractiveApprovalRequest Value) (d v : Value)
      → approval_response api r d ≡ success v
      → Elem d r.available_decisions
  unfolding approval_response interactive_approval_is_available
  answered_offered r d v h = offered-Elem api laws d r.available_decisions (ground arith)

module _ (api : JsonApi) where
  open api use {Value}

  abbrev all_known : UserInputRequest Value → List (String × List String) → Bool
  all_known r [] = true
  all_known r ((id, chosen) ∷ rest) = is_known api r id && all_known r rest

  encoded_answers_lem :
      (r : UserInputRequest Value) (answers : List (String × List String))
      → is_success (encoded_answers api r answers) ≡ all_known r answers
  unfolding encoded_answers
  encoded_answers_lem r [] = refl
  encoded_answers_lem r ((id, chosen) ∷ rest) = ground (arith, encoded_answers_lem r rest)

  -- Answers to questions have a response just when no question is secret and every answer is to a
  -- question of the request.
  pub user_input_response_lem :
      (r : UserInputRequest Value) (answers : List (String × List String))
      → is_success (user_input_response api r answers)
        ≡ (not (contains_secret api r) && all_known r answers)
  unfolding user_input_response
  user_input_response_lem r answers = ground (arith, encoded_answers_lem r answers)
