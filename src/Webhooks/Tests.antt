-- ===== src/Webhooks/Tests.antt =====
-- Runs of the callback inbox of backend/poi_admin/webhooks and of its worker on concrete rows.
mod Crypto
use poi_hub.Base.{ℕ, String, ◌≡◌, ◌≢◌, refl, true, false, Option, none, some, [], ◌∷◌, inl}
use poi_hub.Base.Int.{ℤ, pos}
use poi_hub.Base.Rows.{find}
use poi_hub.Base.Result.{ok}
use poi_hub.Base.Json.{Json, str, int, Fields, end, field}
use poi_hub.Connections.Ports.{local_life}
use poi_hub.Operations.Model.{Operation, queued}
use poi_hub.Operations.Enqueue.{Connection}
use poi_hub.LocalLife.Products.Status.{approved, listed, parse_status}
use poi_hub.LocalLife.Products.Model.{Product}
use poi_hub.LocalLife.Products.Handlers.{Intent, validate_intent}
use poi_hub.Webhooks.Model.{Event, processing, has_event_id}
use poi_hub.Webhooks.Inbox.{Draw, new_event, known, ingest}
use poi_hub.Webhooks.Inbox.Once.{ingest-again}
use poi_hub.Webhooks.Worker.{mark_webhook_failed}
use poi_hub.Webhooks.Worker.Overwrite.{Released, mark_webhook_failed_overwrites}
use poi_hub.Webhooks.Process.{HookDb, hinted, process_webhook_event}
use poi_hub.Webhooks.Process.Hints.{hinted_invalidates, process-again}

abbrev text : Json → String
text (str s) = s
text _ = "value"

abbrev canonical : Fields → String
canonical end = ""
canonical (field k v r) = text v

abbrev digest : String → String
digest s = s

abbrev sealed : Fields → String
sealed d = "sealed"

abbrev connection : Connection
connection = record { id = "c"; tenant_id = "t"; capability = local_life }

abbrev payload : Fields
payload = field "Event" (str "product_listed") (field "product_id" (str "e-1") end)

abbrev draw : Draw
draw = record { new_id = "w-1"; now = 100 }

abbrev event : Event
event = new_event canonical digest sealed text 8 draw connection payload

first_callback :
    ingest canonical digest sealed text 8 (connection ∷ []) draw "c" payload [] []
    ≡ ok ((event, false), event ∷ [])
unfolding ingest
first_callback = refl

ingest-again_example :
    ingest canonical digest sealed text 8
      (connection ∷ [])
      (record { new_id = "w-2"; now = 200 })
      "c"
      payload
      []
      (event ∷ [])
    ≡ ok ((event, true), event ∷ [])
unfolding known
ingest-again_example =
    ingest-again canonical digest sealed text 8 (connection ∷ []) draw
      (record { new_id = "w-2"; now = 200 }) "c" payload connection [] [] [] event false
      (event ∷ []) refl (inl refl) (inl refl) first_callback

-- read by one worker, then claimed by another after the lease has ended
abbrev read : Event
read = record {
  id = "w-1";
  tenant_id = "t";
  connection_id = "c";
  fingerprint = "f";
  event_type = "product_listed";
  payload = payload;
  encrypted_payload = none;
  status = processing;
  attempt_count = 1;
  max_attempts = 8;
  error_message = none;
  worker_id = some "a";
  lease_expires_at = some 160;
  next_attempt_at = 100;
  received_at = 100;
  processed_at = none;
}

abbrev reclaimed : Event
reclaimed = record read { worker_id = some "b"; lease_expires_at = some 300; attempt_count = 2 }

mark_webhook_failed_overwrites_example :
    (x : Event) × (find
        (has_event_id "w-1")
        (mark_webhook_failed read "slow" "a" 8 0 250 (reclaimed ∷ []))
      ≡ some x)
    × Released read 8 x
mark_webhook_failed_overwrites_example =
    mark_webhook_failed_overwrites read "slow" "a" 8 0 250 (reclaimed ∷ []) reclaimed refl refl refl

abbrev product : Product
product = record {
  id = "p";
  tenant_id = "t";
  connection_id = "c";
  external_product_id = some "e-1";
  merchant_product_id = "m-1";
  details = end;
  remote_status = "approved";
  desired_state = "listed";
  version = 4;
  last_synced_at = none;
}

abbrev number : Json → Option ℤ
number (int n) = some n
number _ = none

abbrev date : Json → Option ℕ
date _ = none

abbrev new_ids : ℕ → String
new_ids n = "new"

abbrev tables : HookDb
tables = record { events = read ∷ []; products = product ∷ []; orders = []; vouchers = [] }

abbrev after : HookDb
after =
    (process_webhook_event text number date digest none (connection ∷ []) new_ids 500 none read
      tables).0
