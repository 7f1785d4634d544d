-- ===== src/LocalLife/Products/Creation/Remote.antt =====
-- The handler `create_product` of backend/poi_admin/local_life/products.py. What the handler has
-- written when it raises stands beside the failure, since the session that marks the operation failed
-- commits it.
use poi_hub.Base.{
  ℕ, suc, String, Bool, false, not, Option, none, some, List, [], ◌∷◌, ◌&&◌, ◌||◌, ◌==◌, eqb,
  opt_eq, is_some, if◌then◌else◌,
}
use poi_hub.Base.Int.{pos}
use poi_hub.Base.Text.{concat}
use poi_hub.Base.Rows.{find, any, write, length}
use poi_hub.Base.Json.{int, str, arr, obj, Items, nil, cons, Fields, end, field}
use poi_hub.Base.Result.{Result, ok, err, ◌>>=◌, ◌>>◌}
use poi_hub.Operations.Model.{Operation}
use poi_hub.Operations.Errors.{Failure, other}
use poi_hub.Operations.Enqueue.{owns, enqueue}
use poi_hub.LocalLife.Products.Status.{value, parse_status, set_stock_command}
use poi_hub.LocalLife.Products.Model.{
  Product, Sku, ProductDb, is_product, skus_of, save_product, sku_ref,
}
use poi_hub.LocalLife.Products.Service.{Context, Draw}
use poi_hub.LocalLife.Products.Handlers
use poi_hub.LocalLife.Products.Handlers.{
  Gateway, is_local_life, raise, product_for, product_payload, gateway_for,
}

-- `SkuResult`
pub record SkuResult : Type 0 where
  pub external_id : String
  pub merchant_sku_id : Option String

-- `ProductResult`, as far as a creation reads it
pub record CreatedProduct : Type 0 where
  pub external_id : String
  pub status : String
  pub skus : List SkuResult

-- the entry of the dictionary of remote ids: of two under one key the later
unfoldable by_merchant : String → List SkuResult → Option String
by_merchant m [] = none
by_merchant m (r ∷ rs) = elim (by_merchant m rs) [
  | some i ↦ some i
  | none ↦ if opt_eq r.merchant_sku_id (some m) then some r.external_id else none
]

-- the remote ids of the SKUs, one for each pair
unfoldable pub remote_ids : List SkuResult → List Sku → List SkuResult → List String
unfolding by_merchant
remote_ids all (s ∷ ss) (r ∷ rs) =
    elim (by_merchant s.merchant_sku_id all) [ none ↦ r.external_id | some i ↦ i ]
    ∷ remote_ids all ss rs
remote_ids all _ _ = []

-- one of them is empty, or two are the same
unfoldable pub is_invalid : List String → Bool
is_invalid [] = false
is_invalid (i ∷ is) = i == "" || any (λ j. j == i) is || is_invalid is

abbrev with_external : String → Sku → Sku
with_external i s = record s { external_sku_id = some i }

-- the rows of the SKUs with their remote ids
unfoldable set_externals : List Sku → List String → List Sku → List Sku
set_externals (s ∷ ss) (i ∷ is) table =
    set_externals ss is (write (λ t. t.id == s.id) (with_external i) table)
set_externals _ _ table = table

abbrev pub identified : CreatedProduct → Product → Product
identified r p = record p { external_product_id = some r.external_id }

-- another product of the connection that has this remote id
unfoldable has_external : Product → Product → Bool
has_external p q =
    q.tenant_id == p.tenant_id
    && q.connection_id == p.connection_id
    && opt_eq q.external_product_id p.external_product_id
    && not (q.id == p.id)

abbrev pub Outcome : Type 0
Outcome = Result Failure Fields × ProductDb

-- the product and its SKUs as the gateway has made them; the commit refuses a remote id that another
-- product has, and a status that is not known raises when the product has its id already
unfoldable pub store_created :
    Product
    → List Sku
    → List String
    → CreatedProduct
    → ℕ
    → ProductDb
    → Result Failure Unit × ProductDb
unfolding value has_external set_externals
store_created p skus ids r now db = elim (parse_status r.status) [
  | none ↦ (
    raise "remote product returned an unknown status" "invalid_product_status",
    save_product (identified r p) db,
  )
  | some s ↦
      let p' = record (identified r p) { remote_status = value s; last_synced_at = some now } in
      if any (has_external p') db.products
      then (
        raise "remote identifiers already belong to another product" "remote_identifier_conflict",
        db,
      )
      else (ok tt, record (save_product p' db) { skus = set_externals skus ids db.skus })
]

-- the answer of the gateway, checked against the SKUs and stored
unfoldable pub accept_created :
    Product → List Sku → CreatedProduct → ℕ → ProductDb → Result Failure Unit × ProductDb
unfolding remote_ids is_invalid store_created
accept_created p skus r now db =
    if not (eqb (length r.skus) (length skus))
    then (raise "remote SKU identifiers do not match the request" "remote_sku_mismatch", db)
    else if is_invalid (remote_ids r.skus skus r.skus)
    then (raise "remote SKU identifiers are invalid" "remote_sku_mismatch", db)
    else store_created p skus (remote_ids r.skus skus r.skus) r now db

-- `decimal` writes a number in decimal digits
unfoldable stock_key : (ℕ → String) → Product → Sku → String
unfolding concat
stock_key decimal p s =
    concat "initial-stock:"
      (concat p.id (concat ":" (concat s.id (concat ":v" (decimal s.version)))))

module _ (c : Context) (decimal : ℕ → String) (draws : ℕ → Draw) where
  -- the initial stock of each SKU, as far as no call raises
  unfoldable enqueue_stocks :
      ℕ → Operation → Product → List Sku → List Operation → Result Failure Items × List Operation
  unfolding enqueue stock_key sku_ref
  enqueue_stocks n op p [] operations = (ok nil, operations)
  enqueue_stocks n op p (s ∷ ss) operations =
      elim (enqueue c.sha256 c.seal c.connections
        (record {
          tenant_id = op.tenant_id;
          command_type = set_stock_command;
          idempotency_key = stock_key decimal p s;
          payload = field "product_id" (str p.id) (
              field "sku_id" (str s.id) (
                field "stock" (int (pos s.desired_stock))
                  (field "target_version" (int (pos s.version)) end)));
          connection_id = some p.connection_id;
          resource_ref = some (sku_ref s);
          max_attempts = 8;
          new_id = (draws n).new_id;
          now = (draws n).now;
        })
        operations operations) [
          | err e ↦ (err other, operations)
          | ok (stock_op, operations') ↦
              let (rest, operations'') = enqueue_stocks (suc n) op p ss operations' in
              (rest >>= (λ ids. ok (cons (str stock_op.id) ids)), operations'')
        ]

  -- what follows when the product has its remote ids
  unfoldable pub finish : Operation → Product → ProductDb → Outcome
  unfolding skus_of enqueue_stocks
  finish op p db = elim p.external_product_id [
    | none ↦ (raise "remote product identifiers are incomplete" "remote_sku_mismatch", db)
    | some external ↦
        if any (λ s. not (is_some s.external_sku_id)) (skus_of p db)
        then (raise "remote product identifiers are incomplete" "remote_sku_mismatch", db)
        else (let (ids, operations) = enqueue_stocks 0 op p (skus_of p db) db.operations in
            (
              ids >>= (λ is. ok (
                  field "product_id" (str p.id) (
                    field "external_product_id" (str external)
                      (field "stock_operation_ids" (arr is) end)))),
              record db { operations = operations },
            ))
  ]

  -- the row of the product as it is now
  abbrev current : Product → ProductDb → Product
  current p db = elim (find (is_product p.tenant_id p.id) db.products) [ none ↦ p | some q ↦ q ]

  -- the payload of a creation, with the SKUs' part
  unfoldable sku_items : List Sku → Items
  sku_items [] = nil
  sku_items (s ∷ ss) =
      cons (obj (field "merchant_sku_id" (str s.merchant_sku_id) s.details)) (sku_items ss)

  unfoldable pub creation_payload : Product → ProductDb → Fields
  unfolding sku_items skus_of
  creation_payload p db = field "skus" (arr (sku_items (skus_of p db))) (product_payload p)

  -- what follows when the answer of the gateway has been stored
  unfoldable pub continue : Operation → Product → Result Failure Unit × ProductDb → Outcome
  unfolding finish
  continue op p (err e, db) = (err e, db)
  continue op p (ok x, db) = finish op (current p db) db

  -- The handler. `connect` makes the client of a connection, as far as it creates products.
  unfoldable pub create_remote :
      (String → Result Failure (Fields → Result Failure CreatedProduct))
      → Operation
      → ℕ
      → Product
      → ProductDb
      → Outcome
  unfolding owns accept_created continue finish skus_of creation_payload Handlers.require
      Handlers.check
  create_remote connect op now p db =
      let called = (do
        k ←
            Handlers.require (find (owns op.tenant_id p.connection_id) c.connections)
              "connection was not found" "connection_not_found"
        Handlers.check (is_local_life k.capability) "connection does not support Local Life"
            "invalid_connection"
        create ← connect k.id
        if is_some p.external_product_id
            then ok none
            else (do r ← create (creation_payload p db); ok (some r))) in
      elim called [
        | err e ↦ (err e, db)
        | ok none ↦ finish op p db
        | ok (some r) ↦ continue op p (accept_created p (skus_of p db) r now db)
      ]

  unfoldable apply_create :
      (String → Result Failure (Fields → Result Failure CreatedProduct))
      → Operation
      → ℕ
      → ProductDb
      → Outcome
  unfolding product_for create_remote
  apply_create connect op now db = elim (product_for op db) [
    | err e ↦ (err e, db)
    | ok p ↦ create_remote connect op now p db
  ]
