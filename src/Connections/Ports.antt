-- ===== src/Connections/Ports.antt =====
-- The errors and the enumerations of backend/poi_admin/connections/ports.py.
use poi_hub.Base.{String, Bool, true, false}

-- `Capability`
pub data Capability : Type 0 where
  local_life service_poi : Capability

-- `GatewayError`, with its message, code and the mark that a retry may help
pub record GatewayError : Type 0 where
  pub message : String
  pub code : String
  pub retryable : Bool

-- `GatewayTransientError`
abbrev pub transient : String → String → GatewayError
transient message code = record { message = message; code = code; retryable = true }

-- `GatewayTerminalError`
abbrev pub terminal : String → String → GatewayError
terminal message code = record { message = message; code = code; retryable = false }
