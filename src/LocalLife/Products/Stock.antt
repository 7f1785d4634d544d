-- ===== src/LocalLife/Products/Stock.antt =====
-- The stock of a SKU: `ProductService.update_stock` and the handler `set_stock` of
-- backend/poi_admin/local_life/products.py.
use poi_hub.Base.{
  ℕ, String, ◌+◌, Bool, true, false, not, Option, none, some, List, ◌&&◌, ◌==◌, eqb, opt_eq,
  is_some, if◌then◌else◌,
}
use poi_hub.Base.Result.{Result, ok, err, ◌>>=◌, ◌>>◌}
use poi_hub.Base.Json.{str, int, bool, Fields, end, field, get, get_str, get_int, json_eq}
use poi_hub.Base.Int.{ℤ, pos, eqb_ℤ}
use poi_hub.Operations.Model.{Operation}
use poi_hub.Operations.Errors.{Failure}
use poi_hub.Operations.Enqueue.{Connection, enqueue, get_by_idempotency_key}
use poi_hub.LocalLife.Products.Status.{deleted, value, set_stock_command}
use poi_hub.LocalLife.Products.Model.{
  Product, Sku, ProductDb, ProductError, queue, get_sku, product_of, save_sku, sku_ref,
}
use poi_hub.LocalLife.Products.Service.{Context, Draw, check, require}
use poi_hub.LocalLife.Products.Handlers
use poi_hub.LocalLife.Products.Handlers.{Gateway, gateway_for, raise}

pub record StockUpdateRequest : Type 0 where
  pub stock : ℕ
  pub version : ℕ
  pub idempotency_key : String

abbrev stock_payload : Sku → ℕ → Fields
stock_payload s stock = field "product_id" (str s.product_id) (
    field "sku_id" (str s.id)
      (field "stock" (int (pos stock)) (field "target_version" (int (pos s.version)) end)))

unfoldable enqueue_stock :
    Context
    → Draw
    → String
    → String
    → ℕ
    → Sku
    → Product
    → ProductDb
    → Result ProductError (Operation × ProductDb)
unfolding enqueue sku_ref
enqueue_stock c draw tenant key stock s p db =
    elim (enqueue c.sha256 c.seal c.connections
      (record {
        tenant_id = tenant;
        command_type = set_stock_command;
        idempotency_key = key;
        payload = stock_payload s stock;
        connection_id = some p.connection_id;
        resource_ref = some (sku_ref s);
        max_attempts = 8;
        new_id = draw.new_id;
        now = draw.now;
      })
      db.operations db.operations) [
        | ok (op, operations) ↦ ok (op, record (save_sku s db) { operations = operations })
        | err e ↦ err (queue e)
      ]

-- the SKU after a call that wants this stock
abbrev restocked : Sku → ℕ → Sku
restocked s stock = record s { desired_stock = stock; version = s.version + 1 }

unfoldable stock_new :
    Context
    → Draw
    → String
    → String
    → StockUpdateRequest
    → ProductDb
    → Result ProductError ((Sku × Operation) × ProductDb)
unfolding check require get_sku product_of enqueue_stock value
stock_new c draw tenant i r db = do
  s ← require (get_sku tenant i db) "sku_not_found" 404
  p ← require (product_of s db) "sku_not_found" 404
  check (is_some p.external_product_id && is_some s.external_sku_id) "product_not_ready" 409
  check (not (p.remote_status == value deleted)) "invalid_product_transition" 409
  check (eqb s.version r.version) "version_conflict" 409
  (op, db') ← enqueue_stock c draw tenant r.idempotency_key r.stock (restocked s r.stock) p db
  ok ((restocked s r.stock, op), db')

-- an operation that was queued for the same SKU and the same stock
unfoldable is_same_stock : Operation → String → ℕ → Bool
unfolding json_eq
is_same_stock op i stock =
    op.command_type == set_stock_command
    && opt_eq (get_str "sku_id" op.payload) (some i)
    && elim (get "stock" op.payload) [ none ↦ false | some v ↦ json_eq v (int (pos stock)) ]

unfoldable pub update_stock :
    Context
    → Draw
    → String
    → String
    → StockUpdateRequest
    → ProductDb
    → Result ProductError ((Sku × Operation) × ProductDb)
unfolding check require get_by_idempotency_key get_sku is_same_stock stock_new
update_stock c draw tenant i r db =
    elim (get_by_idempotency_key c.sha256 c.seal tenant r.idempotency_key db.operations) [
      | some op ↦ do
        check (is_same_stock op i r.stock) "idempotency_key_conflict" 409
        s ← require (get_sku tenant i db) "sku_not_found" 404
        ok ((s, op), db)
      | none ↦ stock_new c draw tenant i r db
    ]

-- `isinstance(stock, int)` and `stock >= 0`
abbrev non_negative : Option ℤ → Option ℕ
non_negative (some (pos n)) = some n
non_negative _ = none

abbrev pub stock_reply : Sku → Bool → Fields
stock_reply s superseded =
    field "sku_id" (str s.id)
      (field "stock" (int (pos s.stock)) (field "superseded" (bool superseded) end))

module _ (connections : List Connection) (connect : String → Result Failure Gateway) where
  unfoldable pub remote_stock :
      Operation → Sku → Product → ℕ → ℕ → ProductDb → Result Failure (Fields × ProductDb)
  unfolding gateway_for Handlers.require
  remote_stock op s p stock now db = do
    external ←
        Handlers.require p.external_product_id "remote product identifiers are incomplete"
          "product_not_ready"
    external_sku ←
        Handlers.require s.external_sku_id "remote product identifiers are incomplete"
          "product_not_ready"
    g ← gateway_for connections connect op p
    g.update_stock external external_sku stock
    let s' = record s { stock = stock; last_stock_synced_at = some now }
    ok (stock_reply s' false, save_sku s' db)

  unfoldable pub set_stock : Operation → ℕ → ProductDb → Result Failure (Fields × ProductDb)
  unfolding Handlers.require Handlers.check get_sku product_of remote_stock
  set_stock op now db = do
    i ←
        Handlers.require (get_str "sku_id" op.payload) "stock operation payload is invalid"
          "invalid_operation_payload"
    stock ←
        Handlers.require (non_negative (get_int "stock" op.payload))
          "stock operation payload is invalid" "invalid_operation_payload"
    target_version ←
        Handlers.require (get_int "target_version" op.payload) "stock operation payload is invalid"
          "invalid_operation_payload"
    s ← Handlers.require (get_sku op.tenant_id i db) "SKU was not found" "sku_not_found"
    p ← Handlers.require (product_of s db) "SKU was not found" "sku_not_found"
    Handlers.check (opt_eq op.connection_id (some p.connection_id))
        "operation connection does not own SKU" "invalid_connection"
    if eqb_ℤ (pos s.version) target_version
        then remote_stock op s p stock now db
        else ok (stock_reply s true, db)
