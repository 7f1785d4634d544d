-- ===== src/LocalLife/Products/Handlers.antt =====
-- The handlers of product operations, of backend/poi_admin/local_life/products.py. What a gateway
-- answers is a parameter; a handler that raises before its first write has changed nothing.
use poi_hub.Base.{
  ℕ, String, Bool, true, false, not, Option, none, some, List, ◌&&◌, ◌||◌, ◌==◌, opt_eq,
  if◌then◌else◌,
}
use poi_hub.Base.Result.{Result, ok, err, ◌>>=◌, ◌>>◌}
use poi_hub.Base.Json.{str, Fields, end, field, get_str, get_int}
use poi_hub.Base.Int.{pos, eqb_ℤ}
use poi_hub.Base.Rows.{find}
use poi_hub.Connections.Ports.{Capability, local_life, terminal}
use poi_hub.Operations.Model.{Operation}
use poi_hub.Operations.Errors.{Failure, gateway, timeout, transport, other}
use poi_hub.Operations.Enqueue.{Connection, owns}
use poi_hub.LocalLife.Products.Status.{
  ProductStatus, deleted, value, parse_status, ProductAction, cancel_audit, list, delist, delete,
  command_action, action_target, status_eq, audit_free_update_product_command,
}
use poi_hub.LocalLife.Products.Model.{Product, ProductDb, get_product, save_product}

-- `ProductResult`, as far as the handlers read it
pub record ProductResult : Type 0 where
  pub external_id : String
  pub status : String

-- the calls of `LocalLifeGateway` on products
pub record Gateway : Type 0 where
  pub update_product : String → Fields → Result Failure ProductResult
  pub audit_free_update_product : String → Fields → Result Failure ProductResult
  pub cancel_product_audit : String → Result Failure ProductResult
  pub list_product : String → Result Failure ProductResult
  pub delist_product : String → Result Failure ProductResult
  pub delete_product : String → Result Failure Unit
  pub update_stock : String → String → ℕ → Result Failure Unit

abbrev pub raise : {A : Type 0} → String → String → Result Failure A
raise message code = err (gateway (terminal message code))

unfoldable pub require : {A : Type 0} → Option A → String → String → Result Failure A
require none message code = raise message code
require (some a) message code = ok a

unfoldable pub check : Bool → String → String → Result Failure Unit
check true message code = ok tt
check false message code = raise message code

abbrev pub is_local_life : Capability → Bool
is_local_life local_life = true
is_local_life _ = false

-- `connect` is the rest of `ConnectionService.gateway`, which makes the client of a connection.
module _ (connections : List Connection) (connect : String → Result Failure Gateway) where
  unfoldable pub gateway_for : Operation → Product → Result Failure Gateway
  unfolding owns require check
  gateway_for op p = do
    c ←
        require (find (owns op.tenant_id p.connection_id) connections) "connection was not found"
          "connection_not_found"
    check (is_local_life c.capability) "connection does not support Local Life" "invalid_connection"
    connect c.id

unfoldable pub product_for : Operation → ProductDb → Result Failure Product
unfolding require check get_product
product_for op db = do
  i ←
      require (get_str "product_id" op.payload) "product operation is missing product_id"
        "invalid_operation_payload"
  p ← require (get_product op.tenant_id i db) "product was not found" "product_not_found"
  check (opt_eq op.connection_id (some p.connection_id)) "operation connection does not own product"
      "invalid_connection"
  ok p

-- `_status`
unfoldable pub result_status : ProductResult → Result Failure ProductStatus
unfolding require
result_status r =
    require (parse_status r.status) "remote product returned an unknown status"
      "invalid_product_status"

-- the statuses of an intent: where it starts, what it wants, and where the product is
pub record Intent : Type 0 where
  pub source : ProductStatus
  pub target : ProductStatus
  pub current : ProductStatus

unfoldable pub validate_intent : Product → Operation → Result Failure Intent
unfolding require check status_eq
validate_intent p op = do
  source_value ←
      require (get_str "source_status" op.payload) "product operation intent is invalid"
        "invalid_operation_payload"
  target_value ←
      require (get_str "target_status" op.payload) "product operation intent is invalid"
        "invalid_operation_payload"
  target_version ←
      require (get_int "target_version" op.payload) "product operation intent is invalid"
        "invalid_operation_payload"
  source ←
      require (parse_status source_value) "product operation status is invalid"
        "invalid_product_status"
  target ←
      require (parse_status target_value) "product operation status is invalid"
        "invalid_product_status"
  current ←
      require (parse_status p.remote_status) "product operation status is invalid"
        "invalid_product_status"
  desired ←
      require (parse_status p.desired_state) "product operation status is invalid"
        "invalid_product_status"
  check (eqb_ℤ (pos p.version) target_version && status_eq desired target)
      "product intent changed after operation was queued" "product_intent_changed"
  check (status_eq current source || status_eq current target)
      "product state changed after operation was queued" "invalid_product_transition"
  ok (record { source = source; target = target; current = current })

-- `_product_payload`; `skus` is the list of the SKUs' part of it
abbrev pub product_payload : Product → Fields
product_payload p = field "merchant_product_id" (str p.merchant_product_id) p.details

abbrev pub reply : Product → String → Fields
reply p status = field "product_id" (str p.id) (field "remote_status" (str status) end)

-- the product when the gateway has reached a status
abbrev pub settle : Product → ProductStatus → ℕ → Product
settle p s now = record p {
  remote_status = value s;
  desired_state = value s;
  last_synced_at = some now;
}

-- The remote call must have reached the target; then the product is settled there.
unfoldable pub reach :
    Product → ProductStatus → ℕ → ProductResult → ProductDb → Result Failure (Fields × ProductDb)
unfolding result_status check status_eq
reach p target now r db = do
  s ← result_status r
  check (status_eq s target) "remote product did not reach the requested status"
      "invalid_product_transition"
  ok (reply p (value s), save_product (settle p s now) db)

module _ (connections : List Connection) (connect : String → Result Failure Gateway) where
  unfoldable call_update :
      Operation → Product → ProductStatus → ℕ → ProductDb → Result Failure (Fields × ProductDb)
  unfolding gateway_for reach require
  call_update op p target now db = do
    external ←
        require p.external_product_id "remote product identifier is missing" "product_not_ready"
    g ← gateway_for connections connect op p
    r ←
        (if op.command_type == audit_free_update_product_command
          then g.audit_free_update_product external (product_payload p)
          else g.update_product external (product_payload p))
    reach p target now r db

  unfoldable apply_update : Operation → ℕ → ProductDb → Result Failure (Fields × ProductDb)
  unfolding product_for validate_intent call_update status_eq
  apply_update op now db = do
    p ← product_for op db
    v ← validate_intent p op
    if not (op.command_type == audit_free_update_product_command) && status_eq v.current v.target
        then ok (reply p (value v.target), db)
        else call_update op p v.target now db

  -- A product that is gone already counts as deleted; a `GatewayTerminalError` is an error of the
  -- gateway that may not be retried.
  unfoldable pub delete_remote : Gateway → String → Result Failure Unit
  delete_remote g external = elim (g.delete_product external) [
    | ok done ↦ ok tt
    | err f ↦ elim f [
      | gateway e ↦
          if not e.retryable && e.code == "product_not_found" then ok tt else err (gateway e)
      | timeout ↦ err timeout
      | transport ↦ err transport
      | other ↦ err other
    ]
  ]

  unfoldable pub call_action :
      Gateway
      → ProductAction
      → Product
      → String
      → ProductStatus
      → ℕ
      → ProductDb
      → Result Failure (Fields × ProductDb)
  unfolding reach delete_remote
  call_action g cancel_audit p external target now db = do
    r ← g.cancel_product_audit external
    reach p target now r db
  call_action g list p external target now db = do
    r ← g.list_product external
    reach p target now r db
  call_action g delist p external target now db = do
    r ← g.delist_product external
    reach p target now r db
  call_action g delete p external target now db = do
    delete_remote g external
    ok (reply p (value deleted), save_product (settle p deleted now) db)

  unfoldable pub remote_action :
      Operation
      → Product
      → ProductAction
      → ProductStatus
      → ℕ
      → ProductDb
      → Result Failure (Fields × ProductDb)
  unfolding gateway_for call_action require
  remote_action op p action target now db = do
    external ←
        require p.external_product_id "remote product identifier is missing" "product_not_ready"
    g ← gateway_for connections connect op p
    call_action g action p external target now db

  unfoldable pub apply_action : Operation → ℕ → ProductDb → Result Failure (Fields × ProductDb)
  unfolding product_for validate_intent remote_action require check status_eq command_action
      action_target
  apply_action op now db = do
    p ← product_for op db
    action ←
        require (command_action op.command_type) "product action is invalid"
          "invalid_product_action"
    v ← validate_intent p op
    check (status_eq v.target (action_target action)) "product action target is invalid"
        "invalid_operation_payload"
    if status_eq v.current v.target
        then ok (reply p (value v.target), db)
        else remote_action op p action v.target now db
