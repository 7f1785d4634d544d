-- ===== src/LocalLife/Products/Restock.antt =====
-- Two orders for the stock of one SKU, of backend/poi_admin/local_life/products.py.
use poi_hub.Base.{ℕ, String, true, some, List, ◌≡◌, eqb, if◌then◌else◌, arith, eq_refl}
use poi_hub.Base.Result.{Result, ok}
use poi_hub.Base.Json.{get_str, get_int}
use poi_hub.Base.Int.{pos}
use poi_hub.Operations.Model.{Operation}
use poi_hub.Operations.Errors.{Failure}
use poi_hub.Operations.Enqueue.{Connection}
use poi_hub.LocalLife.Products.Model.{Product, Sku, ProductDb, get_sku, product_of}
use poi_hub.LocalLife.Products.Handlers
use poi_hub.LocalLife.Products.Handlers.{Gateway}
use poi_hub.LocalLife.Products.Stock.{stock_reply, remote_stock, set_stock}

-- The handler of an operation that names a SKU, its stock and the version it was queued for: with
-- the version that the SKU still has it sets the stock at the gateway, and with another version the
-- operation is superseded, whatever the gateway would answer, and no row changes.
pub set_stock_latest :
    (connections : List Connection) (connect : String → Result Failure Gateway) (op : Operation)
    (now : ℕ) (db : ProductDb) (i : String) (stock version : ℕ) (s : Sku) (p : Product)
    → get_str "sku_id" op.payload ≡ some i
    → get_int "stock" op.payload ≡ some (pos stock)
    → get_int "target_version" op.payload ≡ some (pos version)
    → get_sku op.tenant_id i db ≡ some s
    → product_of s db ≡ some p
    → op.connection_id ≡ some p.connection_id
    → set_stock connections connect op now db ≡ (
        if eqb s.version version
        then remote_stock connections connect op s p stock now db
        else ok (stock_reply s true, db))
unfolding set_stock Handlers.require Handlers.check
set_stock_latest connections connect op now db i stock version s p a b c found owned same =
    rw (a, b, c, found, owned, same, eq_refl p.connection_id) (ground arith)
