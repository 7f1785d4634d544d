-- ===== src/LocalLife/Products/Service.antt =====
-- The calls of `ProductService` that change a product, of
-- backend/poi_admin/local_life/products.py. A call that raises has committed nothing.
use poi_hub.Base.{
  ℕ, String, ◌+◌, Bool, true, false, not, Option, none, some, List, ◌&&◌, ◌==◌, eqb, opt_eq,
  is_some, if◌then◌else◌,
}
use poi_hub.Base.Result.{Result, ok, err, ◌>>=◌, ◌>>◌}
use poi_hub.Base.Json.{Json, str, apply_changes, int, Fields, end, field, get, get_str}
use poi_hub.Base.Int.{pos}
use poi_hub.Base.Rows.{any}
use poi_hub.Operations.Model.{Operation, OperationStatus}
use poi_hub.Operations.Enqueue.{Connection, enqueue, get_by_idempotency_key}
use poi_hub.LocalLife.Products.Status.{
  ProductStatus, under_review, value, parse_status, ProductAction, parse_action, action_command,
  action_target, action_allowed, regular_update_allowed, audit_free_update_allowed, status_eq,
  update_product_command, audit_free_update_product_command,
}
use poi_hub.LocalLife.Products.Model.{
  Product, ProductDb, ProductError, service, queue, get_product, save_product, product_ref,
}

-- `_ACTIVE_OPERATION_STATUSES`
abbrev pub is_active : OperationStatus → Bool
is_active OperationStatus.queued = true
is_active OperationStatus.running = true
is_active OperationStatus.retry_wait = true
is_active _ = false

unfoldable pub is_pending : String → Product → Operation → Bool
unfolding product_ref
is_pending tenant p op =
    op.tenant_id == tenant && opt_eq op.resource_ref (some (product_ref p)) && is_active op.status

unfoldable pub check : Bool → String → ℕ → Result ProductError Unit
check true code status = ok tt
check false code status = err (service code status)

unfoldable pub require : {A : Type 0} → Option A → String → ℕ → Result ProductError A
require none code status = err (service code status)
require (some a) code status = ok a

-- `_require_no_pending_product_operation`
unfoldable pub require_no_pending : String → Product → ProductDb → Result ProductError Unit
unfolding is_pending check
require_no_pending tenant p db =
    check (not (any (is_pending tenant p) db.operations)) "product_operation_pending" 409

-- `_settled_product_status`
unfoldable pub settled_status : Product → Result ProductError ProductStatus
unfolding require check status_eq
settled_status p = do
  remote ← require (parse_status p.remote_status) "invalid_product_status" 409
  desired ← require (parse_status p.desired_state) "invalid_product_status" 409
  check (status_eq desired remote) "product_state_pending" 409
  ok remote

-- What the service is given: the digest, the encryption, and the connections.
pub record Context : Type 0 where
  pub sha256 : String → String
  pub seal : Option (Fields → String)
  pub connections : List Connection

-- what one call draws on: a new operation's id, and the time
pub record Draw : Type 0 where
  pub new_id : String
  pub now : ℕ

-- `operation_service.enqueue` for a product, with the payload and the product to write back
unfoldable pub enqueue_for :
    Context
    → Draw
    → String
    → String
    → String
    → Fields
    → Product
    → ProductDb
    → Result ProductError (Operation × ProductDb)
unfolding enqueue product_ref
enqueue_for c draw tenant command key payload p db =
    elim (enqueue c.sha256 c.seal c.connections
      (record {
        tenant_id = tenant;
        command_type = command;
        idempotency_key = key;
        payload = payload;
        connection_id = some p.connection_id;
        resource_ref = some (product_ref p);
        max_attempts = 8;
        new_id = draw.new_id;
        now = draw.now;
      })
      db.operations db.operations) [
        | ok (op, operations) ↦ ok (op, record (save_product p db) { operations = operations })
        | err e ↦ err (queue e)
      ]

-- the payload of an operation on a product
abbrev pub intent : Product → ProductStatus → ProductStatus → Fields → Fields
intent p source target rest = field "product_id" (str p.id) (
    field "source_status" (str (value source)) (
      field "target_status" (str (value target))
        (field "target_version" (int (pos p.version)) rest)))

-- the product after a call that wants `target`
abbrev pub wanting : Product → ProductStatus → Product
wanting p target = record p { desired_state = value target; version = p.version + 1 }

abbrev pub fits : Option String → String → Bool
fits none i = true
fits (some j) i = i == j

-- a stored fingerprint that is there must be the expected one
abbrev agrees : Option Json → Option String → Bool
agrees none expected = true
agrees (some Json.null) expected = true
agrees (some (str s)) none = true
agrees (some (str s)) (some t) = s == t
agrees (some _) none = true
agrees (some _) (some t) = false

-- `_existing_product_operation`
unfoldable pub existing_operation :
    String
    → Operation
    → String
    → Option String
    → Option String
    → ProductDb
    → Result ProductError (Product × Operation)
unfolding check require
existing_operation tenant op command expected_product fingerprint db = do
  check (op.command_type == command) "idempotency_key_conflict" 409
  i ← require (get_str "product_id" op.payload) "idempotency_key_conflict" 409
  check (fits expected_product i && agrees (get "request_fingerprint" op.payload) fingerprint)
      "idempotency_key_conflict" 409
  p ← require (get_product tenant i db) "idempotency_resource_missing" 409
  ok (p, op)

pub record ProductUpdateRequest : Type 0 where
  pub version : ℕ
  pub idempotency_key : String
  pub changes : Fields
  pub fingerprint : String

abbrev update_command : Bool → String
update_command audit_free =
    if audit_free then audit_free_update_product_command else update_product_command

abbrev update_allowed : Bool → ProductStatus → Bool
update_allowed audit_free s =
    if audit_free then audit_free_update_allowed s else regular_update_allowed s

abbrev update_target : Bool → ProductStatus → ProductStatus
update_target audit_free current = if audit_free then current else under_review

-- the call for a key that is free
unfoldable pub update_new :
    Context
    → Draw
    → String
    → String
    → ProductUpdateRequest
    → Bool
    → ProductDb
    → Result ProductError ((Product × Operation) × ProductDb)
unfolding require check require_no_pending settled_status enqueue_for apply_changes
update_new c draw tenant i r audit_free db = do
  p ← require (get_product tenant i db) "product_not_found" 404
  check (is_some p.external_product_id) "product_not_ready" 409
  require_no_pending tenant p db
  current ← settled_status p
  check (update_allowed audit_free current) "invalid_product_transition" 409
  check (eqb p.version r.version) "version_conflict" 409
  let p' =
      wanting (record p { details = apply_changes r.changes p.details })
        (update_target audit_free current)
  (op, db') ←
      enqueue_for c draw tenant (update_command audit_free) r.idempotency_key
        (intent p' current (update_target audit_free current)
          (field "request_fingerprint" (str r.fingerprint) end))
        p' db
  ok ((p', op), db')

unfoldable pub update_product :
    Context
    → Draw
    → String
    → String
    → ProductUpdateRequest
    → Bool
    → ProductDb
    → Result ProductError ((Product × Operation) × ProductDb)
unfolding get_by_idempotency_key existing_operation update_new
update_product c draw tenant i r audit_free db =
    elim (get_by_idempotency_key c.sha256 c.seal tenant r.idempotency_key db.operations) [
      | some op ↦ do
        found ←
            existing_operation tenant op (update_command audit_free) (some i) (some r.fingerprint)
              db
        ok (found, db)
      | none ↦ update_new c draw tenant i r audit_free db
    ]

unfoldable pub action_new :
    Context
    → Draw
    → String
    → String
    → ProductAction
    → String
    → ProductDb
    → Result ProductError (Operation × ProductDb)
unfolding require check require_no_pending settled_status enqueue_for action_allowed action_target
    action_command
action_new c draw tenant i action key db = do
  p ← require (get_product tenant i db) "product_not_found" 404
  check (is_some p.external_product_id) "product_not_ready" 409
  require_no_pending tenant p db
  current ← settled_status p
  check (action_allowed action current) "invalid_product_transition" 409
  let p' = wanting p (action_target action)
  enqueue_for c draw tenant (action_command action) key
      (intent p' current (action_target action) end) p' db

unfoldable pub enqueue_action :
    Context
    → Draw
    → String
    → String
    → String
    → String
    → ProductDb
    → Result ProductError (Operation × ProductDb)
unfolding require check get_by_idempotency_key action_new action_command
enqueue_action c draw tenant i action key db = do
  a ← require (parse_action action) "invalid_product_action" 422
  elim (get_by_idempotency_key c.sha256 c.seal tenant key db.operations) [
    | some op ↦
        if op.command_type == action_command a && opt_eq (get_str "product_id" op.payload) (some i)
        then ok (op, db)
        else err (service "idempotency_key_conflict" 409)
    | none ↦ action_new c draw tenant i a key db
  ]
