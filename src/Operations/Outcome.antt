-- ===== src/Operations/Outcome.antt =====
-- `mark_succeeded` and `mark_failed` of backend/poi_admin/operations/service.py.
pub mod Reports
use poi_hub.Base.{
  ℕ, String, ◌+◌, Bool, Option, none, some, List, ◌&&◌, ◌==◌, ltb, opt_eq, if◌then◌else◌,
}
use poi_hub.Base.Rows.{update}
use poi_hub.Base.Text.{prefix}
use poi_hub.Base.Json.{Fields}
use poi_hub.Connections.Crypto.{redact_fields}
use poi_hub.Operations.Model.{Operation, OperationStatus, is_running, has_id}
use poi_hub.Operations.Errors.{backoff}

-- `worker_id or operation.worker_id`: the empty text counts as none
unfoldable pub owner : Option String → Operation → Option String
owner none op = op.worker_id
owner (some w) op = if w == "" then op.worker_id else some w

-- The row of the operation while it runs, and only for its owner if a worker is named.
unfoldable pub is_owned : Operation → Option String → Option String → Operation → Bool
is_owned operation none own op = has_id operation.id op && is_running op.status
is_owned operation (some _) own op =
    has_id operation.id op && is_running op.status && opt_eq op.worker_id own

unfoldable pub succeed : Option Fields → ℕ → Operation → Operation
succeed response now op = record op {
  status = OperationStatus.succeeded;
  response_summary = elim response [ none ↦ none | some r ↦ some (redact_fields r) ];
  completed_at = some now;
  lease_expires_at = none;
  updated_at = now;
}

-- `operation` is the row as the worker read it when it claimed it.
unfoldable pub mark_succeeded :
    Operation → Option Fields → Option String → ℕ → List Operation → List Operation
unfolding owner is_owned succeed
mark_succeeded operation response worker now table = elim (owner worker operation) [
  | none ↦ table
  | some own ↦ update (is_owned operation worker (some own)) (succeed response now) table
]

pub record Report : Type 0 where
  pub code : String
  pub message : String
  pub retryable : Bool

-- the new values of a row whose attempt failed
unfoldable pub fail : Operation → Report → ℕ → ℕ → Operation → Operation
unfolding prefix
fail operation report jitter now op =
    if report.retryable && ltb operation.attempt_count operation.max_attempts
    then record op {
      status = OperationStatus.retry_wait;
      error_code = some report.code;
      error_message = some (prefix 500 report.message);
      lease_expires_at = none;
      next_attempt_at = now + backoff jitter operation.attempt_count;
      completed_at = none;
      updated_at = now;
    }
    else record op {
      status = OperationStatus.failed;
      error_code = some report.code;
      error_message = some (prefix 500 report.message);
      lease_expires_at = none;
      completed_at = some now;
      updated_at = now;
    }

unfoldable pub mark_failed :
    Operation → Report → Option String → ℕ → ℕ → List Operation → List Operation
unfolding owner is_owned fail
mark_failed operation report worker jitter now table = elim (owner worker operation) [
  | none ↦ table
  | some own ↦
      update (is_owned operation worker (some own)) (fail operation report jitter now) table
]
