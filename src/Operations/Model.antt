-- ===== src/Operations/Model.antt =====
-- The rows of backend/poi_admin/operations/models.py. A time is a number of microseconds.
use poi_hub.Base.{ℕ, String, Bool, true, false, Option, ◌&&◌, ◌==◌}
use poi_hub.Base.Json.{Fields}

-- `OperationStatus`
pub data OperationStatus : Type 0 where
  queued running succeeded retry_wait failed : OperationStatus

-- `IntegrationOperation`
pub record Operation : Type 0 where
  pub id : String
  pub tenant_id : String
  pub connection_id : Option String
  pub command_type : String
  pub idempotency_key : String
  pub resource_ref : Option String
  pub status : OperationStatus
  pub attempt_count : ℕ
  pub max_attempts : ℕ
  pub payload : Fields
  pub encrypted_payload : Option String
  pub response_summary : Option Fields
  pub error_code : Option String
  pub error_message : Option String
  pub worker_id : Option String
  pub lease_expires_at : Option ℕ
  pub next_attempt_at : ℕ
  pub created_at : ℕ
  pub updated_at : ℕ
  pub completed_at : Option ℕ

abbrev pub is_running : OperationStatus → Bool
is_running OperationStatus.running = true
is_running _ = false

-- `status in [QUEUED, RETRY_WAIT]`
abbrev pub is_waiting : OperationStatus → Bool
is_waiting OperationStatus.queued = true
is_waiting OperationStatus.retry_wait = true
is_waiting _ = false

-- `status in {FAILED, RETRY_WAIT}`
abbrev pub is_retryable : OperationStatus → Bool
is_retryable OperationStatus.failed = true
is_retryable OperationStatus.retry_wait = true
is_retryable _ = false

-- the primary key and the key of `uq_operation_tenant_idempotency`
abbrev pub has_id : String → Operation → Bool
has_id i op = op.id == i

abbrev pub has_key : String → String → Operation → Bool
has_key tenant key op = op.tenant_id == tenant && op.idempotency_key == key
