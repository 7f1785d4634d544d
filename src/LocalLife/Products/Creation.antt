-- ===== src/LocalLife/Products/Creation.antt =====
-- `ProductService.create_product` of backend/poi_admin/local_life/products.py.
pub mod Remote
pub mod Stuck
use poi_hub.Base.{
  ℕ, suc, String, Bool, true, false, not, Option, none, some, List, [], ◌∷◌, ◌++◌, ◌&&◌, ◌||◌, ◌==◌,
  eqb, opt_eq, is_some, if◌then◌else◌,
}
use poi_hub.Base.Int.{pos}
use poi_hub.Base.Text.{concat}
use poi_hub.Base.Rows.{find, any, write, length, update}
use poi_hub.Base.Json.{Json, int, str, arr, obj, Items, nil, cons, Fields, end, field}
use poi_hub.Base.Result.{Result, ok, err, ◌>>=◌, ◌>>◌}
use poi_hub.Operations.Model.{Operation}
use poi_hub.Operations.Errors.{Failure, other}
use poi_hub.Operations.Enqueue.{Connection, owns, enqueue, get_by_idempotency_key}
use poi_hub.LocalLife.Products.Status.{
  pending_create, under_review, value, parse_status, set_stock_command,
}
use poi_hub.LocalLife.Products.Model.{
  Product, Sku, ProductDb, ProductError, service, is_product, skus_of, save_product, sku_ref,
}
use poi_hub.LocalLife.Products.Service.{
  Context, Draw, require, check, enqueue_for, existing_operation,
}
use poi_hub.LocalLife.Products.Handlers
use poi_hub.LocalLife.Products.Handlers.{
  Gateway, is_local_life, raise, product_for, product_payload, gateway_for,
}

abbrev pub create_product_command : String
create_product_command = "local_life.product.create"

-- a SKU of a request, with its name and its prices as details
record NewSku : Type 0 where
  pub merchant_sku_id : String
  pub details : Fields
  pub stock : ℕ

-- `ProductCreateRequest`, with its fingerprint
record ProductCreateRequest : Type 0 where
  pub connection_id : String
  pub merchant_product_id : String
  pub details : Fields
  pub skus : List NewSku
  pub idempotency_key : String
  pub fingerprint : String

unfoldable new_product : String → String → String → ProductCreateRequest → Product
unfolding value
new_product i tenant connection r = record {
  id = i;
  tenant_id = tenant;
  connection_id = connection;
  external_product_id = none;
  merchant_product_id = r.merchant_product_id;
  details = r.details;
  remote_status = value pending_create;
  desired_state = value under_review;
  version = 1;
  last_synced_at = none;
}

-- `sku_id n` is the id of the n-th row.
unfoldable new_skus : (ℕ → String) → ℕ → String → String → List NewSku → List Sku
new_skus sku_id n tenant product [] = []
new_skus sku_id n tenant product (s ∷ ss) =
    record {
      id = sku_id n;
      tenant_id = tenant;
      product_id = product;
      external_sku_id = none;
      merchant_sku_id = s.merchant_sku_id;
      details = s.details;
      stock = 0;
      desired_stock = s.stock;
      version = 1;
      last_stock_synced_at = none;
    }
    ∷ new_skus sku_id (suc n) tenant product ss

-- the same product of the merchant on the same connection
unfoldable is_same_product : Product → Product → Bool
is_same_product a b =
    a.tenant_id == b.tenant_id
    && a.connection_id == b.connection_id
    && a.merchant_product_id == b.merchant_product_id

-- two SKUs of the merchant under one id
unfoldable repeats : List NewSku → Bool
repeats [] = false
repeats (s ∷ ss) = any (λ t. t.merchant_sku_id == s.merchant_sku_id) ss || repeats ss

-- the call for a key that is free; the flush refuses a product, or a SKU of it, that is there
unfoldable create_new :
    Context
    → Draw
    → String
    → (ℕ → String)
    → String
    → ProductCreateRequest
    → ProductDb
    → Result ProductError ((Product × Operation) × ProductDb)
unfolding owns require check new_product new_skus is_same_product repeats enqueue_for
create_new c draw product_id sku_id tenant r db = do
  k ← require (find (owns tenant r.connection_id) c.connections) "connection_not_found" 404
  check (is_local_life k.capability) "invalid_connection" 422
  let p = new_product product_id tenant k.id r
  check (not (any (is_same_product p) db.products || repeats r.skus)) "merchant_product_exists" 409
  (op, db') ←
      enqueue_for c draw tenant create_product_command r.idempotency_key
        (field "product_id" (str p.id) (field "request_fingerprint" (str r.fingerprint) end)) p
        (record db {
          products = db.products ++ p ∷ [];
          skus = db.skus ++ new_skus sku_id 0 tenant p.id r.skus;
        })
  ok ((p, op), db')

-- `ProductService.create_product`
unfoldable create_product :
    Context
    → Draw
    → String
    → (ℕ → String)
    → String
    → ProductCreateRequest
    → ProductDb
    → Result ProductError ((Product × Operation) × ProductDb)
unfolding get_by_idempotency_key existing_operation create_new
create_product c draw product_id sku_id tenant r db =
    elim (get_by_idempotency_key c.sha256 c.seal tenant r.idempotency_key db.operations) [
      | some op ↦ do
        found ← existing_operation tenant op create_product_command none (some r.fingerprint) db
        ok (found, db)
      | none ↦ create_new c draw product_id sku_id tenant r db
    ]
