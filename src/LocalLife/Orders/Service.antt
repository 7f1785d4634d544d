-- ===== src/LocalLife/Orders/Service.antt =====
-- `OrderService` of backend/poi_admin/local_life/orders.py. A call that raises has committed nothing.
pub mod Replay
use poi_hub.Base.{
  ℕ, String, Bool, true, false, not, Option, none, some, List, [], ◌∷◌, ◌++◌, ◌&&◌, ◌==◌, opt_eq,
  if◌then◌else◌,
}
use poi_hub.Base.Int.{pos}
use poi_hub.Base.Text.{concat}
use poi_hub.Base.Rows.{find}
use poi_hub.Base.Json.{str, Fields, end, field, get_str}
use poi_hub.Base.Result.{Result, ok, err, ◌>>=◌, ◌>>◌}
use poi_hub.Operations.Model.{Operation}
use poi_hub.Operations.Enqueue.{Connection, OperationError, owns, enqueue, get_by_idempotency_key}
use poi_hub.LocalLife.Products.Handlers.{is_local_life}
use poi_hub.LocalLife.Orders.Model.{
  Order, AfterSale, OrderDb, OrderError, service, queue, get_order, is_external,
}

abbrev pub order_sync_command : String
order_sync_command = "local_life.order.sync"

abbrev after_sale_sync_command : String
after_sale_sync_command = "local_life.after_sale.sync"

-- what the service is given: the digest, the encryption, and the connections
pub record Context : Type 0 where
  pub sha256 : String → String
  pub seal : Option (Fields → String)
  pub connections : List Connection

-- what one call draws on: the ids of a new row and of a new operation, and the time
pub record Draw : Type 0 where
  pub row_id : String
  pub operation_id : String
  pub now : ℕ

pub record OrderSyncRequest : Type 0 where
  pub connection_id : String
  pub external_order_id : String
  pub idempotency_key : String

unfoldable pub require : {A : Type 0} → Option A → String → ℕ → Result OrderError A
require none code status = err (service code status)
require (some a) code status = ok a

unfoldable pub check : Bool → String → ℕ → Result OrderError Unit
check true code status = ok tt
check false code status = err (service code status)

-- `_connection`
unfoldable pub connection_of : List Connection → String → String → Result OrderError Connection
unfolding owns require check
connection_of connections tenant i = do
  c ← require (find (owns tenant i) connections) "connection_not_found" 404
  check (is_local_life c.capability) "invalid_connection" 422
  ok c

unfoldable pub queued_as : {A : Type 0} → Result OperationError A → Result OrderError A
queued_as (ok a) = ok a
queued_as (err e) = err (queue e)

unfoldable pub new_order : String → String → OrderSyncRequest → Order
new_order i tenant r = record {
  id = i;
  tenant_id = tenant;
  connection_id = r.connection_id;
  external_order_id = r.external_order_id;
  status = "pending_sync";
  total_amount = pos 0;
  paid_amount = pos 0;
  currency = "CNY";
  customer_reference_masked = none;
  raw_summary = end;
  raw_checksum = none;
  remote_updated_at = none;
  last_synced_at = none;
}

-- an operation that was queued for the same order
unfoldable pub is_same_sync : Operation → OrderSyncRequest → Bool
is_same_sync op r =
    op.command_type == order_sync_command
    && opt_eq op.connection_id (some r.connection_id)
    && opt_eq (get_str "external_order_id" op.payload) (some r.external_order_id)

-- the order of the request: the row, or a new one
unfoldable pub order_for : String → String → OrderSyncRequest → List Order → Order × List Order
unfolding is_external new_order
order_for i tenant r orders =
    elim (find (is_external tenant r.connection_id r.external_order_id) orders) [
      | some o ↦ (o, orders)
      | none ↦ (new_order i tenant r, orders ++ new_order i tenant r ∷ [])
    ]

unfoldable pub enqueue_order_sync :
    Context
    → Draw
    → String
    → OrderSyncRequest
    → Order
    → List Operation
    → Result OrderError (Operation × List Operation)
unfolding queued_as concat
enqueue_order_sync c draw tenant r o operations = queued_as (
    enqueue c.sha256 c.seal c.connections
      (record {
        tenant_id = tenant;
        command_type = order_sync_command;
        idempotency_key = r.idempotency_key;
        payload =
            field "order_id" (str o.id) (field "external_order_id" (str r.external_order_id) end);
        connection_id = some r.connection_id;
        resource_ref = some (concat "local_order:" o.id);
        max_attempts = 8;
        new_id = draw.operation_id;
        now = draw.now;
      })
      operations operations)

-- A new order is committed with the operation only.
unfoldable pub sync_order :
    Context
    → Draw
    → String
    → OrderSyncRequest
    → OrderDb
    → Result OrderError ((Order × Operation) × OrderDb)
unfolding connection_of check is_same_sync order_for enqueue_order_sync get_by_idempotency_key
sync_order c draw tenant r db = do
  connection_of c.connections tenant r.connection_id
  let (o, orders) = order_for draw.row_id tenant r db.orders
  elim (get_by_idempotency_key c.sha256 c.seal tenant r.idempotency_key db.operations) [
    | some op ↦ do check (is_same_sync op r) "idempotency_key_conflict" 409; ok ((o, op), db)
    | none ↦ do
      (op, operations) ← enqueue_order_sync c draw tenant r o db.operations
      ok ((o, op), record db { orders = orders; operations = operations })
  ]

unfoldable new_after_sale : String → String → Order → String → AfterSale
new_after_sale i tenant o external = record {
  id = i;
  tenant_id = tenant;
  connection_id = o.connection_id;
  order_id = some o.id;
  external_after_sale_id = external;
  status = "pending_sync";
  after_sale_type = none;
  refund_amount = pos 0;
  raw_summary = end;
  last_synced_at = none;
}

-- the key of an after-sale
unfoldable is_external_sale : String → String → String → AfterSale → Bool
is_external_sale tenant connection i a =
    a.tenant_id == tenant && a.connection_id == connection && a.external_after_sale_id == i

unfoldable after_sale_for :
    String → String → Order → String → List AfterSale → AfterSale × List AfterSale
unfolding is_external_sale new_after_sale
after_sale_for i tenant o external sales =
    elim (find (is_external_sale tenant o.connection_id external) sales) [
      | some a ↦ (a, sales)
      | none ↦
          (new_after_sale i tenant o external, sales ++ new_after_sale i tenant o external ∷ [])
    ]

-- an operation that was queued for the same after-sale of the same order
unfoldable is_same_sale : Operation → String → String → Bool
is_same_sale op order external =
    op.command_type == after_sale_sync_command
    && opt_eq (get_str "order_id" op.payload) (some order)
    && opt_eq (get_str "external_after_sale_id" op.payload) (some external)

unfoldable enqueue_sale :
    Context
    → Draw
    → String
    → String
    → Order
    → String
    → OrderDb
    → Result OrderError (Operation × OrderDb)
unfolding queued_as concat after_sale_for
enqueue_sale c draw tenant key o external db = do
  let (a, sales) = after_sale_for draw.row_id tenant o external db.after_sales
  (op, operations) ← queued_as (
      enqueue c.sha256 c.seal c.connections
        (record {
          tenant_id = tenant;
          command_type = after_sale_sync_command;
          idempotency_key = key;
          payload =
              field "after_sale_id" (str a.id)
                (field "order_id" (str o.id) (field "external_after_sale_id" (str external) end));
          connection_id = some o.connection_id;
          resource_ref = some (concat "local_after_sale:" a.id);
          max_attempts = 8;
          new_id = draw.operation_id;
          now = draw.now;
        })
        db.operations db.operations)
  ok (op, record db { after_sales = sales; operations = operations })

-- order, after-sale at the gateway, key
unfoldable pub sync_after_sale :
    Context
    → Draw
    → String
    → String
    → String
    → String
    → OrderDb
    → Result OrderError (Operation × OrderDb)
unfolding require check get_order is_same_sale enqueue_sale get_by_idempotency_key
sync_after_sale c draw tenant order external key db = do
  o ← require (get_order tenant order db.orders) "order_not_found" 404
  elim (get_by_idempotency_key c.sha256 c.seal tenant key db.operations) [
    | some op ↦ do
      check (is_same_sale op order external) "idempotency_key_conflict" 409
      ok (op, db)
    | none ↦ enqueue_sale c draw tenant key o external db
  ]
