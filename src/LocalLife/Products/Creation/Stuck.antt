-- ===== src/LocalLife/Products/Creation/Stuck.antt =====
-- A creation that the gateway answers with a status which is not known, of
-- backend/poi_admin/local_life/products.py.
use poi_hub.Base.{ℕ, String, ◌≡◌, refl, true, false, not, none, some, List, eqb, arith, is_some}
use poi_hub.Base.Rows.{find, any, length}
use poi_hub.Base.Json.{Fields}
use poi_hub.Base.Result.{Result, ok}
use poi_hub.Operations.Model.{Operation}
use poi_hub.Operations.Errors.{Failure}
use poi_hub.Operations.Enqueue.{Connection, owns}
use poi_hub.LocalLife.Products.Status.{parse_status}
use poi_hub.LocalLife.Products.Model.{Product, Sku, ProductDb, skus_of, save_product}
use poi_hub.LocalLife.Products.Service.{Context, Draw}
use poi_hub.LocalLife.Products.Handlers
use poi_hub.LocalLife.Products.Handlers.{is_local_life, raise}
use poi_hub.LocalLife.Products.Creation.Remote.{
  CreatedProduct, identified, remote_ids, is_invalid, store_created, accept_created, finish,
  continue, creation_payload, create_remote,
}

accepted :
    (p : Product) (skus : List Sku) (r : CreatedProduct) (now : ℕ) (db : ProductDb)
    → eqb (length r.skus) (length skus) ≡ true
    → is_invalid (remote_ids r.skus skus r.skus) ≡ false
    → parse_status r.status ≡ none
    → accept_created p skus r now db ≡ (
      raise "remote product returned an unknown status" "invalid_product_status",
      save_product (identified r p) db,
    )
unfolding accept_created store_created
accepted p skus r now db lengths valid unknown =
    rw (accept_created, lengths, valid, store_created, unknown) refl

module _ (c : Context) (decimal : ℕ → String) (draws : ℕ → Draw) where
  finished :
      (connect : String → Result Failure (Fields → Result Failure CreatedProduct)) (op : Operation)
      (p : Product) (db : ProductDb) (external : String)
      → p.external_product_id ≡ some external
      → any (λ s. not (is_some s.external_sku_id)) (skus_of p db) ≡ true
      → finish c decimal draws op p db
        ≡ (raise "remote product identifiers are incomplete" "remote_sku_mismatch", db)
  unfolding finish skus_of
  finished connect op p db external named bare = rw (finish, named) (ground arith)

  -- The product has its remote id, and a SKU of it has none: a run calls nothing and fails.
  unready :
      (connect : String → Result Failure (Fields → Result Failure CreatedProduct)) (op : Operation)
      (now : ℕ) (p : Product) (db : ProductDb) (k : Connection)
      (create : Fields → Result Failure CreatedProduct) (external : String)
      → find (owns op.tenant_id p.connection_id) c.connections ≡ some k
      → is_local_life k.capability ≡ true
      → connect k.id ≡ ok create
      → p.external_product_id ≡ some external
      → any (λ s. not (is_some s.external_sku_id)) (skus_of p db) ≡ true
      → create_remote c decimal draws connect op now p db
        ≡ (raise "remote product identifiers are incomplete" "remote_sku_mismatch", db)
  unfolding create_remote Handlers.require Handlers.check finish
  unready connect op now p db k create external owned life made named bare =
      rw (create_remote, owned, life, made, named) (finished connect op p db external named bare)

  -- A gateway that has made the product, and answers a status that is not known: the run fails when the
  -- product has its remote id and its SKUs have none. Every later run then fails as well, whatever the
  -- gateway would answer, since it takes the product as made and asks for nothing.
  pub create_remote_stuck :
      (connect : String → Result Failure (Fields → Result Failure CreatedProduct)) (op : Operation)
      (now : ℕ) (p : Product) (db : ProductDb) (k : Connection)
      (create : Fields → Result Failure CreatedProduct) (r : CreatedProduct)
      → find (owns op.tenant_id p.connection_id) c.connections ≡ some k
      → is_local_life k.capability ≡ true
      → connect k.id ≡ ok create
      → p.external_product_id ≡ none
      → create (creation_payload c decimal draws p db) ≡ ok r
      → eqb (length r.skus) (length (skus_of p db)) ≡ true
      → is_invalid (remote_ids r.skus (skus_of p db) r.skus) ≡ false
      → parse_status r.status ≡ none
      → any (λ s. not (is_some s.external_sku_id)) (skus_of p db) ≡ true
      → (connect' : String → Result Failure (Fields → Result Failure CreatedProduct)) (now' : ℕ)
        (create' : Fields → Result Failure CreatedProduct)
      → connect' k.id ≡ ok create'
      → (create_remote c decimal draws connect op now p db ≡ (
        raise "remote product returned an unknown status" "invalid_product_status",
        save_product (identified r p) db,
      ))
        × (create_remote c decimal draws connect' op now'
              (identified r p)
              (save_product (identified r p) db)
            ≡ (
              raise "remote product identifiers are incomplete" "remote_sku_mismatch",
              save_product (identified r p) db,
            ))
  unfolding create_remote Handlers.require Handlers.check continue
  create_remote_stuck connect op now p db k create r owned life made unnamed answered lengths valid
        unknown bare connect' now' create' made' =
      (
        rw
            (
              create_remote,
              owned,
              life,
              made,
              unnamed,
              answered,
              continue,
              accepted p (skus_of p db) r now db lengths valid unknown,
            )
            refl,
        unready connect' op now' (identified r p) (save_product (identified r p) db) k create'
            r.external_id owned life made' refl bare,
      )
