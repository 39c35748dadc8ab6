-- ===== src/Interactive/Tests.antt =====
-- Tests of the interactive requests, on plain JSON values.
use codex_telegram_bridge.Prelude.Map.{get, insert}
use codex_telegram_bridge.Prelude.Int.{int_ord}
use codex_telegram_bridge.Prelude.{
  ◌≡◌, refl, inl, inr, false, none, [], ◌∷◌, is_success, success, string_ord, nat_ord, pair_ord,
  option_ord, list_ord, Elem, is_blank,
}
use codex_telegram_bridge.Plain.Laws.{plain-IsJson}
use codex_telegram_bridge.Plain.{Json, plain, text, dict, no_fields, field_and}
use codex_telegram_bridge.Interactive.Types.{
  AgentServerRequest, UserInputRequest, InteractiveApprovalRequest,
}
use codex_telegram_bridge.Interactive.Requests.{
  parse_approval, user_input_response, approval_response,
}
use codex_telegram_bridge.Interactive.Replies.{
  offered_answered, answered_offered, user_input_response_lem,
}

abbrev asked : Json
asked = dict (field_and "threadId" (text "th") (field_and "turnId" (text "tu") no_fields))

abbrev request : AgentServerRequest Json
request = record { id = text "7"; method = "execCommandApproval"; params = asked; generation = 1 }

abbrev read : InteractiveApprovalRequest Json
read = record {
  request = request;
  thread_id = "th";
  turn_id = "tu";
  item_id = "";
  method = "execCommandApproval";
  params = dict (
      field_and "itemId" (text "")
        (field_and "threadId" (text "th") (field_and "turnId" (text "tu") no_fields)));
  available_decisions =
      text "accept" ∷ text "acceptForSession" ∷ text "decline" ∷ text "cancel" ∷ [];
}

approval_is_read : parse_approval plain request ≡ success read
unfolding parse_approval is_blank get insert
approval_is_read = refl

offered_answered_example : (v : Json) × (approval_response plain read (text "decline") ≡ success v)
unfolding parse_approval is_blank get insert
offered_answered_example =
    offered_answered plain plain-IsJson request read (text "decline") refl (inr (inr (inl refl)))

answered_offered_example :
    Elem {A = Json}
      (text "decline")
      (text "accept" ∷ text "acceptForSession" ∷ text "decline" ∷ text "cancel" ∷ [])
unfolding approval_response
answered_offered_example =
    answered_offered plain plain-IsJson read (text "decline")
      (dict (field_and "decision" (text "denied") no_fields)) refl

abbrev questions : UserInputRequest Json
questions = record {
  request = request;
  thread_id = "th";
  turn_id = "tu";
  item_id = "";
  questions = record { id = "q"; question = "Which?"; is_secret = false } ∷ [];
  auto_resolution_ms = none;
}

user_input_response_example :
    is_success (user_input_response plain questions (("q", "yes" ∷ []) ∷ ("r", []) ∷ [])) ≡ false
user_input_response_example =
    user_input_response_lem plain questions (("q", "yes" ∷ []) ∷ ("r", []) ∷ [])
