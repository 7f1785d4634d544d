-- ===== src/Operations/Errors.antt =====
-- `classify_error` and `backoff_seconds` of backend/poi_admin/operations/service.py.
pub mod Backoff
use poi_hub.Base.{ℕ, String, ◌+◌, ◌-◌, ◌*◌, ◌^◌, min, Bool, true, false}
use poi_hub.Connections.Ports.{GatewayError}

-- What a handler raises, by the classes that the code tells apart: `timeout` stands for
-- `TimeoutError`, `transport` for any other `OSError`, `other` for any other exception.
pub data Failure : Type 0 where
  gateway : GatewayError → Failure
  timeout : Failure
  transport : Failure
  other : Failure

pub record ClassifiedError : Type 0 where
  pub code : String
  pub message : String
  pub retryable : Bool

unfoldable pub classify_error : Failure → ClassifiedError
classify_error (gateway e) = record { code = e.code; message = e.message; retryable = e.retryable }
classify_error transport = record {
  code = "upstream_unavailable";
  message = "上游服务暂时不可用";
  retryable = true;
}
classify_error timeout = record {
  code = "upstream_unavailable";
  message = "上游服务暂时不可用";
  retryable = true;
}
classify_error other = record {
  code = "operation_failed";
  message = "Operation failed; inspect server logs";
  retryable = false;
}

abbrev pub second : ℕ
second = 1_000_000

-- `backoff_seconds` in microseconds; `jitter` is what `random.uniform(0.0, 1.0)` adds.
unfoldable pub backoff : ℕ → ℕ → ℕ
backoff jitter attempt = min (3600 * second) (2 ^ (attempt - 1) * (5 * second) + jitter)
