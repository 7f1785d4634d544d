-- ===== src/LocalLife/Tests/Creation.antt =====
-- A run of the creation of a product, of backend/poi_admin/local_life/products.py, on concrete rows.
use poi_hub.Base.{ℕ, String, ◌≡◌, refl, none, some, [], ◌∷◌}
use poi_hub.Base.Result.{Result, ok, err}
use poi_hub.Base.Json.{Fields, end}
use poi_hub.Operations.Errors.{Failure, timeout}
use poi_hub.LocalLife.Products.Status.{parse_status}
use poi_hub.LocalLife.Products.Model.{Product, Sku, ProductDb, save_product}
use poi_hub.LocalLife.Products.Service.{Draw}
use poi_hub.LocalLife.Products.Handlers.{raise}
use poi_hub.LocalLife.Products.Creation.Remote.{CreatedProduct, identified, create_remote}
use poi_hub.LocalLife.Products.Creation.Stuck.{create_remote_stuck}
use poi_hub.LocalLife.Tests.{connection, context, draw, blank}

abbrev product : Product
product = record {
  id = "p";
  tenant_id = "t";
  connection_id = "c";
  external_product_id = none;
  merchant_product_id = "m-1";
  details = end;
  remote_status = "pending_create";
  desired_state = "under_review";
  version = 1;
  last_synced_at = none;
}

abbrev sku : Sku
sku = record {
  id = "s";
  tenant_id = "t";
  product_id = "p";
  external_sku_id = none;
  merchant_sku_id = "ms-1";
  details = end;
  stock = 0;
  desired_stock = 7;
  version = 1;
  last_stock_synced_at = none;
}

abbrev products : ProductDb
products = record { products = product ∷ []; skus = sku ∷ []; operations = [] }

abbrev strange : CreatedProduct
strange = record {
  external_id = "e-1";
  status = "frozen";
  skus = record { external_id = "es-1"; merchant_sku_id = some "ms-1" } ∷ [];
}

abbrev gateway : Fields → Result Failure CreatedProduct
gateway d = ok strange

abbrev later : Fields → Result Failure CreatedProduct
later d = err timeout

abbrev connect : String → Result Failure (Fields → Result Failure CreatedProduct)
connect i = ok gateway

abbrev connect_later : String → Result Failure (Fields → Result Failure CreatedProduct)
connect_later i = ok later

abbrev decimal : ℕ → String
decimal n = "1"

abbrev draws : ℕ → Draw
draws n = draw

unknown : parse_status "frozen" ≡ none
unfolding parse_status
unknown = refl

create_remote_stuck_example :
    (create_remote context decimal draws connect blank 100 product products ≡ (
      raise "remote product returned an unknown status" "invalid_product_status",
      save_product (identified strange product) products,
    ))
    × (create_remote context decimal draws connect_later blank 200
          (identified strange product)
          (save_product (identified strange product) products)
        ≡ (
          raise "remote product identifiers are incomplete" "remote_sku_mismatch",
          save_product (identified strange product) products,
        ))
unfolding poi_hub.LocalLife.Products.Model.skus_of
    poi_hub.LocalLife.Products.Creation.Remote.remote_ids
    poi_hub.LocalLife.Products.Creation.Remote.is_invalid poi_hub.Operations.Enqueue.owns
create_remote_stuck_example =
    create_remote_stuck context decimal draws connect blank 100 product products connection gateway
      strange refl refl refl refl refl refl refl unknown refl connect_later 200 later refl
