-- ===== src/LocalLife/Products/Applied.antt =====
-- Where `apply_action` of backend/poi_admin/local_life/products.py leaves a product.
use poi_hub.Base.{ℕ, String, false, Option, some, List, ◌≡◌, if◌then◌else◌, ◌⊎◌}
use poi_hub.Base.Result.{Result, ok, err, ◌>>◌}
use poi_hub.Base.Json.{Fields}
use poi_hub.Operations.Model.{Operation}
use poi_hub.Operations.Errors.{Failure, gateway}
use poi_hub.Connections.Ports.{GatewayError}
use poi_hub.Operations.Enqueue.{Connection}
use poi_hub.LocalLife.Products.Status.{
  value, parse_status, ProductAction, cancel_audit, list, delist, delete, action_target, status_eq,
}
use poi_hub.LocalLife.Products.Model.{Product, ProductDb, save_product}
use poi_hub.LocalLife.Products.Handlers
use poi_hub.LocalLife.Products.Handlers.{
  Intent, ProductResult, Gateway, settle, remote_action, gateway_for, reply,
}

-- What the gateway has answered to an action on a product of the platform: the target status, or that the
-- product is deleted or not known.
abbrev pub Reached : Gateway → ProductAction → String → Type 0
Reached g cancel_audit external =
    (r : ProductResult) × (g.cancel_product_audit external ≡ ok r)
    × (parse_status r.status ≡ some (action_target cancel_audit))
Reached g list external =
    (r : ProductResult) × (g.list_product external ≡ ok r)
    × (parse_status r.status ≡ some (action_target list))
Reached g delist external =
    (r : ProductResult) × (g.delist_product external ≡ ok r)
    × (parse_status r.status ≡ some (action_target delist))
Reached g delete external =
    (g.delete_product external ≡ ok tt)
    ⊎ ((e : GatewayError) × (g.delete_product external ≡ err (gateway e))
        × (e.retryable ≡ false)
        × (e.code ≡ "product_not_found"))

-- the handler once its operation has been read
abbrev act :
    List Connection
    → (String → Result Failure Gateway)
    → Operation
    → ℕ
    → ProductDb
    → Product
    → ProductAction
    → Intent
    → Result Failure (Fields × ProductDb)
act connections connect op now db p a v = do
  Handlers.check (status_eq v.target (action_target a)) "product action target is invalid"
      "invalid_operation_payload"
  if status_eq v.current v.target
      then ok (reply p (value v.target), db)
      else remote_action connections connect op p a v.target now db

-- How an action that has called the gateway has ended.
abbrev pub Settled :
    List Connection
    → (String → Result Failure Gateway)
    → Operation
    → ℕ
    → ProductDb
    → ProductDb
    → Product
    → ProductAction
    → Type 0
Settled connections connect op now db db' p a =
    (external : String) × (g : Gateway) × (p.external_product_id ≡ some external)
    × (gateway_for connections connect op p ≡ ok g)
    × Reached g a external
    × (db' ≡ save_product (settle p (action_target a) now) db)
