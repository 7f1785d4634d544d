-- ===== src/Webhooks/Model.antt =====
-- The row of backend/poi_admin/webhooks/models.py. A time is a number of microseconds.
use poi_hub.Base.{ℕ, String, Bool, true, false, Option, ◌&&◌, ◌==◌}
use poi_hub.Base.Json.{Fields}

-- the texts that the code writes to the column `status`
pub data EventStatus : Type 0 where
  received processing processed retry_wait failed dead_letter : EventStatus

-- `WebhookEvent`
pub record Event : Type 0 where
  pub id : String
  pub tenant_id : String
  pub connection_id : String
  pub fingerprint : String
  pub event_type : String
  pub payload : Fields
  pub encrypted_payload : Option String
  pub status : EventStatus
  pub attempt_count : ℕ
  pub max_attempts : ℕ
  pub error_message : Option String
  pub worker_id : Option String
  pub lease_expires_at : Option ℕ
  pub next_attempt_at : ℕ
  pub received_at : ℕ
  pub processed_at : Option ℕ

-- `WebhookServiceError` by its code and status
pub record WebhookError : Type 0 where
  pub code : String
  pub status_code : ℕ

abbrev pub has_event_id : String → Event → Bool
has_event_id i e = e.id == i

-- the key of `uq_webhook_connection_fingerprint`
abbrev pub has_fingerprint : String → String → Event → Bool
has_fingerprint connection fingerprint e =
    e.connection_id == connection && e.fingerprint == fingerprint

-- `status in {"received", "retry_wait", "failed"}`
abbrev pub is_waiting : EventStatus → Bool
is_waiting received = true
is_waiting retry_wait = true
is_waiting failed = true
is_waiting _ = false

abbrev pub is_processing : EventStatus → Bool
is_processing processing = true
is_processing _ = false
