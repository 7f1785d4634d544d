-- ===== src/Webhooks/Inbox.antt =====
-- `WebhookService.ingest` and `retry` of backend/poi_admin/webhooks/service.py.
pub mod Once
use poi_hub.Base.{
  ℕ, String, Bool, true, false, not, Option, none, some, List, [], ◌∷◌, ◌++◌, ◌&&◌, ◌||◌, ◌==◌,
  if◌then◌else◌, ◌⊎◌, ◌≡◌,
}
use poi_hub.Base.Result.{Result, ok, err}
use poi_hub.Base.Rows.{find, write}
use poi_hub.Base.Json.{Json, str, Fields, get}
use poi_hub.Connections.Crypto.{redact_fields}
use poi_hub.Operations.Enqueue.{Connection}
use poi_hub.Webhooks.Model.{
  Event, EventStatus, received, processed, processing, is_waiting, WebhookError, has_event_id,
  has_fingerprint,
}

-- what one call draws on
pub record Draw : Type 0 where
  pub new_id : String
  pub now : ℕ

abbrev dead : EventStatus → Bool
dead EventStatus.dead_letter = true
dead _ = false

abbrev refuse : {A : Type 0} → String → ℕ → Result WebhookError A
refuse code status = err (record { code = code; status_code = status })

-- the status that `retry` accepts
unfoldable pub may_retry : EventStatus → Bool
may_retry s = is_waiting s || dead s

unfoldable pub retried : Event → Event
retried e = record e {
  status = received;
  attempt_count = 0;
  next_attempt_at = e.received_at;
  error_message = none;
  worker_id = none;
  lease_expires_at = none;
}

-- the event of a tenant
unfoldable is_event : String → String → Event → Bool
is_event tenant i e = e.tenant_id == tenant && e.id == i

unfoldable pub retry : String → String → List Event → Result WebhookError (Event × List Event)
unfolding is_event may_retry retried
retry tenant i table = elim (find (is_event tenant i) table) [
  | none ↦ refuse "webhook_not_found" 404
  | some e ↦
      if may_retry e.status
      then ok (retried e, write (is_event tenant i) retried table)
      else refuse "webhook_not_retryable" 409
]

-- `canonical` is the sorted JSON text of a payload, `sha256` the hexadecimal digest of a text, `seal`
-- is `encrypt_secret_bundle` under the key of the settings, and `py_str` is `str` of a value.
module _ (canonical : Fields → String) (sha256 : String → String) (seal : Fields → String)
    (py_str : Json → String) (webhook_max_attempts : ℕ) where
  unfoldable pub fingerprint : Fields → String
  fingerprint payload = sha256 (canonical payload)

  unfoldable pub event_type : Fields → String
  event_type payload = elim (get "Event" payload) [
    | some v ↦ py_str v
    | none ↦ elim (get "event" payload) [ some v ↦ py_str v | none ↦ "unknown" ]
  ]

  unfoldable pub new_event : Draw → Connection → Fields → Event
  unfolding fingerprint event_type
  new_event draw c payload = record {
    id = draw.new_id;
    tenant_id = c.tenant_id;
    connection_id = c.id;
    fingerprint = fingerprint payload;
    event_type = event_type payload;
    payload = redact_fields payload;
    encrypted_payload = some (seal payload);
    status = received;
    attempt_count = 0;
    max_attempts = webhook_max_attempts;
    error_message = none;
    worker_id = none;
    lease_expires_at = none;
    next_attempt_at = draw.now;
    received_at = draw.now;
    processed_at = none;
  }

  -- the event that a table has for the payload
  unfoldable pub known : Connection → Fields → List Event → Option Event
  unfolding fingerprint
  known c payload table = find (has_fingerprint c.id (fingerprint payload)) table

  -- The event, whether it was there before, and the table. `seen` is the table that the first query
  -- reads, and `table` the one at the commit, where the unique constraint decides.
  unfoldable pub ingest :
      List Connection
      → Draw
      → String
      → Fields
      → List Event
      → List Event
      → Result WebhookError ((Event × Bool) × List Event)
  unfolding known new_event
  ingest connections draw connection payload seen table =
      elim (find (λ (c : Connection). c.id == connection) connections) [
        | none ↦ refuse "connection_not_found" 404
        | some c ↦ elim (known c payload seen) [
          | some e ↦ ok ((e, true), table)
          | none ↦ elim (known c payload table) [
            | some e ↦ ok ((e, true), table)
            | none ↦ ok ((new_event draw c payload, false), table ++ new_event draw c payload ∷ [])
          ]
        ]
      ]
