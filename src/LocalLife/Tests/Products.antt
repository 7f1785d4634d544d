-- ===== src/LocalLife/Tests/Products.antt =====
-- Runs of the products and stock of backend/poi_admin/local_life on concrete rows.
use poi_hub.Base.{String, ◌≡◌, refl, true, none, some, [], ◌∷◌, inl, inr}
use poi_hub.Base.Result.{Result, ok, err, ok_or}
use poi_hub.Base.Json.{Fields, end}
use poi_hub.Connections.Crypto.{is_sensitive, redact_secrets}
use poi_hub.Operations.Model.{Operation, OperationStatus}
use poi_hub.Operations.Errors.{Failure}
use poi_hub.Operations.Enqueue.{get_by_idempotency_key}
use poi_hub.LocalLife.Products.Status.{list, delist, parse_action, parse_status}
use poi_hub.LocalLife.Products.Model.{Product, Sku, ProductDb, service, get_product}
use poi_hub.LocalLife.Products.Service.{
  ProductUpdateRequest, action_new, enqueue_action, update_product,
}
use poi_hub.LocalLife.Products.Intent.{Accepted, action_new-Accepted}
use poi_hub.LocalLife.Products.Settled.{action_excludes}
use poi_hub.LocalLife.Products.Handlers.{Gateway, ProductResult, Intent, apply_action}
use poi_hub.LocalLife.Products.Applied.{Settled}
use poi_hub.LocalLife.Tests.{connection, context, draw, blank, free_key}

abbrev product : Product
product = record {
  id = "p";
  tenant_id = "t";
  connection_id = "c";
  external_product_id = some "e-1";
  merchant_product_id = "m-1";
  details = end;
  remote_status = "approved";
  desired_state = "approved";
  version = 3;
  last_synced_at = none;
}

abbrev sku : Sku
sku = record {
  id = "s";
  tenant_id = "t";
  product_id = "p";
  external_sku_id = some "es-1";
  merchant_sku_id = "ms-1";
  details = end;
  stock = 5;
  desired_stock = 7;
  version = 2;
  last_stock_synced_at = none;
}

abbrev products : ProductDb
products = record { products = product ∷ []; skus = sku ∷ []; operations = [] }

-- the product is listed
abbrev listing : Operation × ProductDb
listing = ok_or (action_new context draw "t" "p" list "k-1" products) (blank, products)

accepted : action_new context draw "t" "p" list "k-1" products ≡ ok (listing.0, listing.1)
unfolding action_new is_sensitive redact_secrets get_product parse_status
accepted = refl

action_new-Accepted_example : Accepted "t" "p" list products listing.0 listing.1
action_new-Accepted_example =
    action_new-Accepted context draw "t" "p" list "k-1" products listing.0 listing.1 free_key
      accepted

abbrev update : ProductUpdateRequest
update = record { version = 4; idempotency_key = "k-3"; changes = end; fingerprint = "f" }

abbrev wanted : Product
wanted = record product { desired_state = "listed"; version = 4 }

-- a worker runs the operation
abbrev running_listing : Operation
running_listing = record listing.0 {
  status = OperationStatus.running;
  attempt_count = 1;
  worker_id = some "w";
  lease_expires_at = some 900;
}

abbrev meanwhile : ProductDb
meanwhile = record listing.1 { operations = running_listing ∷ [] }

action_excludes_example :
    (enqueue_action context draw "t" "p" "delist" "k-2" meanwhile
      ≡ err (service "product_operation_pending" 409))
    × (update_product context draw "t" "p" update true meanwhile
        ≡ err (service "product_operation_pending" 409))
unfolding action_new is_sensitive redact_secrets get_by_idempotency_key parse_action get_product
    parse_status
action_excludes_example =
    action_excludes context draw draw "t" "p" list "k-1" products listing.0 listing.1 meanwhile
      running_listing wanted "delist" delist "k-2" update true free_key accepted refl refl refl
      (inr (inl refl)) refl refl refl refl refl

abbrev answered : ProductResult
answered = record { external_id = "e-1"; status = "listed" }

abbrev gateway : Gateway
gateway = record {
  update_product = λ i d. ok answered;
  audit_free_update_product = λ i d. ok answered;
  cancel_product_audit = λ i. ok answered;
  list_product = λ i. ok answered;
  delist_product = λ i. ok answered;
  delete_product = λ i. ok tt;
  update_stock = λ i j n. ok tt;
}

abbrev connect : String → Result Failure Gateway
connect i = ok gateway

abbrev applied : Fields × ProductDb
applied = ok_or (apply_action (connection ∷ []) connect listing.0 200 listing.1) (end, products)
