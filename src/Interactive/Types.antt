-- ===== src/Interactive/Types.antt =====
-- rust/crates/app-server/src/lib.rs: interactive requests. `V` is the type of JSON values.
use codex_telegram_bridge.Prelude.Int.{int_ord}
use codex_telegram_bridge.Prelude.{
  ℕ, String, Bool, Option, none, some, List, if◌then◌else◌, ◌==◌, string_ord, nat_ord, pair_ord,
  option_ord, list_ord,
}

-- `AgentServerRequest` of rust/crates/domain/src/lib.rs.
pub record AgentServerRequest (V : Type 0) : Type 0 where
  pub id : V
  pub method : String
  pub params : V
  pub generation : ℕ

pub record UserInputQuestion : Type 0 where
  pub id : String
  pub question : String
  pub is_secret : Bool

pub record UserInputRequest (V : Type 0) : Type 0 where
  pub request : AgentServerRequest V
  pub thread_id : String
  pub turn_id : String
  pub item_id : String
  pub questions : List UserInputQuestion
  pub auto_resolution_ms : Option ℕ

pub record InteractiveApprovalRequest (V : Type 0) : Type 0 where
  pub request : AgentServerRequest V
  pub thread_id : String
  pub turn_id : String
  pub item_id : String
  pub method : String
  pub params : V
  pub available_decisions : List V

pub data InteractiveServerRequest (V : Type 0) : Type 0 where
  user_input : UserInputRequest V → InteractiveServerRequest V
  approval : InteractiveApprovalRequest V → InteractiveServerRequest V

pub data InteractiveRequestError : Type 0 where
  unsupported_method unknown_question : String → InteractiveRequestError
  missing_thread_id missing_question_id secret_input : InteractiveRequestError
  unavailable_approval_decision invalid_approval_decision : InteractiveRequestError

-- The methods that the matches know.
pub data ApprovalMethod : Type 0 where
  command_execution file_change permissions exec_command apply_patch : ApprovalMethod

unfoldable pub method_of : String → Option ApprovalMethod
method_of method =
    if method == "item/commandExecution/requestApproval"
    then some command_execution
    else if method == "item/fileChange/requestApproval"
    then some file_change
    else if method == "item/permissions/requestApproval"
    then some permissions
    else if method == "execCommandApproval"
    then some exec_command
    else if method == "applyPatchApproval"
    then some apply_patch
    else none
