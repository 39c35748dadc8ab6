-- ===== src/Ports.antt =====
-- rust/crates/ports/src/lib.rs: the errors and the small answers of the ports.
use codex_telegram_bridge.Prelude.{String}

pub data PortError : Type 0 where
  not_found conflict denied adapter : String → PortError

pub data ApprovalAvailability : Type 0 where
  gateway_available gateway_unavailable : ApprovalAvailability

pub record ApprovalDelivery : Type 0 where
  pub external_reference : String

-- `()`.
abbrev pub Done : Type 0
Done = Unit {0}
