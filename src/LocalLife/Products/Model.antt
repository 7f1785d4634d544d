-- ===== src/LocalLife/Products/Model.antt =====
-- The rows of products and SKUs of backend/poi_admin/local_life/models.py, the tables that the
-- product service works on, and its errors.
use poi_hub.Base.{ℕ, String, Bool, Option, List, ◌&&◌, ◌==◌}
use poi_hub.Base.Json.{Fields}
use poi_hub.Base.Rows.{find, write, select}
use poi_hub.Base.Text.{concat}
use poi_hub.Operations.Model.{Operation}
use poi_hub.Operations.Enqueue.{OperationError}

-- `LocalProduct`. `details` holds the columns that the operator edits (name, category, brand,
-- images, rules and the like), by their names. The two statuses are texts, as in the database.
pub record Product : Type 0 where
  pub id : String
  pub tenant_id : String
  pub connection_id : String
  pub external_product_id : Option String
  pub merchant_product_id : String
  pub details : Fields
  pub remote_status : String
  pub desired_state : String
  pub version : ℕ
  pub last_synced_at : Option ℕ

-- `LocalSku`. `details` holds the name and the prices.
pub record Sku : Type 0 where
  pub id : String
  pub tenant_id : String
  pub product_id : String
  pub external_sku_id : Option String
  pub merchant_sku_id : String
  pub details : Fields
  pub stock : ℕ
  pub desired_stock : ℕ
  pub version : ℕ
  pub last_stock_synced_at : Option ℕ

pub record ProductDb : Type 0 where
  pub products : List Product
  pub skus : List Sku
  pub operations : List Operation

-- `ProductServiceError` by its code and status, or what `enqueue` raises
pub data ProductError : Type 0 where
  service : String → ℕ → ProductError
  queue : OperationError → ProductError

abbrev pub is_product : String → String → Product → Bool
is_product tenant i p = p.tenant_id == tenant && p.id == i

abbrev is_sku : String → String → Sku → Bool
is_sku tenant i s = s.tenant_id == tenant && s.id == i

unfoldable pub get_product : String → String → ProductDb → Option Product
get_product tenant i db = find (is_product tenant i) db.products

unfoldable pub get_sku : String → String → ProductDb → Option Sku
get_sku tenant i db = find (is_sku tenant i) db.skus

-- `sku.product`, by the foreign key
unfoldable pub product_of : Sku → ProductDb → Option Product
product_of s db = find (λ p. p.id == s.product_id) db.products

-- `product.skus`
unfoldable pub skus_of : Product → ProductDb → List Sku
skus_of p db = select (λ s. s.product_id == p.id) db.skus

-- a changed object is written back to its row
abbrev pub save_product : Product → ProductDb → ProductDb
save_product p db = record db {
  products = write (is_product p.tenant_id p.id) (λ _. p) db.products;
}

abbrev pub save_sku : Sku → ProductDb → ProductDb
save_sku s db = record db { skus = write (is_sku s.tenant_id s.id) (λ _. s) db.skus }

unfoldable pub product_ref : Product → String
product_ref p = concat "local_product:" p.id

unfoldable pub sku_ref : Sku → String
sku_ref s = concat "local_sku:" s.id
