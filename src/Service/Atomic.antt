-- ===== src/Service/Atomic.antt =====
-- rust/crates/engine/src/lib.rs over the store: what an operation that fails leaves.
use codex_telegram_bridge.Prelude.Int.{int_ord}
use codex_telegram_bridge.Prelude.{
  ◌≡◌, Outcome, success, failure, string_ord, nat_ord, pair_ord, option_ord, list_ord,
}
use codex_telegram_bridge.Ports.{PortError, Done, gateway_available, gateway_unavailable}
use codex_telegram_bridge.Domain.{Session, ApprovalAction, ApprovalRequest}
use codex_telegram_bridge.Service.Integrity.{
  EngineCall, call_create, call_request, call_decide, call_record, call_high_risk, call_schedule,
}
use codex_telegram_bridge.Service.Store.{Store}
use codex_telegram_bridge.Service.Engine.{EngineError, request_approval, port_error}

-- A failure leaves this store.
Reverts : {E A : Type 0} → Store → Outcome E A × Store → Type 0
Reverts {E} s (result, s') = (e : E) → result ≡ failure e → s' ≡ s

module _ (sql_failure : PortError) where
  module _ (authorize : Session → ApprovalAction → Outcome PortError Done) where
    -- The request of high risk was stored, and its publication failed with this error.
    abbrev pub IsUnpublished : EngineCall → EngineError → Store → Store → Type 0
    IsUnpublished (call_create title session_id moment) e s s' = ⊥
    IsUnpublished (call_request session_id action approval_id moment) e s s' = ⊥
    IsUnpublished (call_decide approval_id decision moment) e s s' = ⊥
    IsUnpublished (call_record artifact moment) e s s' = ⊥
    IsUnpublished (call_schedule enqueue command) e s s' = ⊥
    IsUnpublished (call_high_risk gateway_unavailable publish session_id action approval_id moment)
          e s s' =
        ⊥
    IsUnpublished (call_high_risk gateway_available publish session_id action approval_id moment) e
          s s' =
        (approval : ApprovalRequest) × (x : PortError) × (request_approval sql_failure authorize
            session_id action approval_id moment s
          ≡ (success approval, s'))
        × (publish approval ≡ failure x)
        × (e ≡ port_error x)
