-- ===== src/LocalLife/Tests/Orders.antt =====
-- Runs of the orders of backend/poi_admin/local_life/orders.py on concrete rows.
use poi_hub.Base.{ℕ, String, ◌≡◌, refl, Option, none, [], ◌∷◌}
use poi_hub.Base.Int.{pos}
use poi_hub.Base.Result.{Result, ok, err, ok_or}
use poi_hub.Base.Json.{Json, str, Fields, end, field}
use poi_hub.Connections.Crypto.{is_sensitive, redact_secrets}
use poi_hub.Operations.Model.{Operation}
use poi_hub.Operations.Errors.{Failure, other}
use poi_hub.LocalLife.Orders.Model.{Order, OrderDb, get_order, mask_text}
use poi_hub.LocalLife.Orders.Service
use poi_hub.LocalLife.Orders.Service.{Context, Draw, OrderSyncRequest, new_order}
use poi_hub.LocalLife.Orders.Service.Replay.{sync_order-replay}
use poi_hub.LocalLife.Orders.Summaries.{Masks}
use poi_hub.LocalLife.Orders.Handlers.{OrderResult, OrderGateway, sync_order}
use poi_hub.LocalLife.Orders.Handlers.Mirrored.{mask_text_bound}
use poi_hub.LocalLife.Tests.{digest, connection, blank, free_key}

abbrev context : Context
context = record { sha256 = digest; seal = none; connections = connection ∷ [] }

abbrev draw : Draw
draw = record { row_id = "r-1"; operation_id = "o-1"; now = 100 }

abbrev later : Draw
later = record { row_id = "r-2"; operation_id = "o-2"; now = 200 }

abbrev request : OrderSyncRequest
request = record { connection_id = "c"; external_order_id = "e-1"; idempotency_key = "k-1" }

abbrev no_orders : OrderDb
no_orders = record { orders = []; after_sales = []; vouchers = []; operations = [] }

abbrev order : Order
order = record {
  id = "r-1";
  tenant_id = "t";
  connection_id = "c";
  external_order_id = "e-1";
  status = "pending_sync";
  total_amount = pos 0;
  paid_amount = pos 0;
  currency = "CNY";
  customer_reference_masked = none;
  raw_summary = end;
  raw_checksum = none;
  remote_updated_at = none;
  last_synced_at = none;
}

abbrev synced : (Order × Operation) × OrderDb
unfolding Service.sync_order
synced = ok_or (Service.sync_order context draw "t" request no_orders) ((order, blank), no_orders)

sync :
    Service.sync_order context draw "t" request no_orders ≡ ok ((synced.0.0, synced.0.1), synced.1)
unfolding Service.sync_order is_sensitive redact_secrets poi_hub.Operations.Enqueue.enqueue
sync = refl

sync_order-replay_example :
    Service.sync_order context later "t" request synced.1 ≡ ok ((synced.0.0, synced.0.1), synced.1)
sync_order-replay_example =
    sync_order-replay context draw later "t" request no_orders synced.0.0 synced.0.1 synced.1
      free_key sync

mask_text_bound_example : Masks " customer-1234 " (mask_text " customer-1234 ")
mask_text_bound_example = mask_text_bound " customer-1234 "

abbrev show : Json → String
show (str s) = s
show _ = "value"

abbrev parse_dt : Json → Option ℕ
parse_dt v = none

abbrev checksum : Fields → String
checksum d = "checksum"

abbrev orders : OrderDb
orders = record no_orders { orders = order ∷ [] }

abbrev sync_operation : Operation
sync_operation = record blank { payload = field "order_id" (str "r-1") end }

abbrev result : Fields → OrderResult
result raw = record { external_id = "e-1"; status = "paid"; total_amount = pos 900; raw = raw }

abbrev gateway : Fields → OrderGateway
gateway raw = record { get_order = λ i. ok (result raw); get_after_sale = λ i. err other }

abbrev connect : Fields → String → Result Failure OrderGateway
connect raw i = ok (gateway raw)

abbrev new_id : ℕ → String
new_id n = "v"

abbrev plain : Fields
plain = field "customer_reference" (str "customer-1234") end

abbrev outcome : Result Failure Fields × OrderDb
unfolding sync_order
outcome =
    sync_order show parse_dt checksum digest none (connection ∷ []) (connect plain) new_id 100
      sync_operation orders

abbrev answer : Fields
unfolding sync_order
answer = ok_or outcome.0 end
