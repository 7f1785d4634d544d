-- ===== src/LocalLife/Orders/Model.antt =====
-- The rows of orders and after-sales of backend/poi_admin/local_life/models.py, and the helpers of
-- backend/poi_admin/local_life/orders.py.
use poi_hub.Base.{
  ℕ, ◌-◌, String, Bool, not, Option, none, some, List, [], ◌∷◌, ◌&&◌, ◌||◌, ◌==◌, leb,
  if◌then◌else◌,
}
use poi_hub.Base.Int.{ℤ}
use poi_hub.Base.Text.{strip_text, text_length, drop_text, concat}
use poi_hub.Base.Rows.{find, any, write}
use poi_hub.Base.Json.{Json, null, str, Fields, end, field}
use poi_hub.Connections.Crypto.{redact_fields}
use poi_hub.Operations.Model.{Operation}
use poi_hub.Operations.Enqueue.{OperationError}
use poi_hub.LocalLife.Vouchers.Model.{Voucher}

-- `LocalOrder`
pub record Order : Type 0 where
  pub id : String
  pub tenant_id : String
  pub connection_id : String
  pub external_order_id : String
  pub status : String
  pub total_amount : ℤ
  pub paid_amount : ℤ
  pub currency : String
  pub customer_reference_masked : Option String
  pub raw_summary : Fields
  pub raw_checksum : Option String
  pub remote_updated_at : Option ℕ
  pub last_synced_at : Option ℕ

-- `LocalAfterSale`
pub record AfterSale : Type 0 where
  pub id : String
  pub tenant_id : String
  pub connection_id : String
  pub order_id : Option String
  pub external_after_sale_id : String
  pub status : String
  pub after_sale_type : Option String
  pub refund_amount : ℤ
  pub raw_summary : Fields
  pub last_synced_at : Option ℕ

pub record OrderDb : Type 0 where
  pub orders : List Order
  pub after_sales : List AfterSale
  pub vouchers : List Voucher
  pub operations : List Operation

-- `OrderServiceError` by its code and status, and what `enqueue` raises
pub data OrderError : Type 0 where
  service : String → ℕ → OrderError
  queue : OperationError → OrderError

abbrev pub is_order : String → String → Order → Bool
is_order tenant i o = o.tenant_id == tenant && o.id == i

unfoldable pub get_order : String → String → List Order → Option Order
get_order tenant i orders = find (is_order tenant i) orders

-- the key of `uq_local_order_external_id`
unfoldable pub is_external : String → String → String → Order → Bool
is_external tenant connection i o =
    o.tenant_id == tenant && o.connection_id == connection && o.external_order_id == i

abbrev pub save_order : Order → OrderDb → OrderDb
save_order o db = record db { orders = write (is_order o.tenant_id o.id) (λ _. o) db.orders }

unfoldable pub summary_keys : List String
summary_keys =
    "status" ∷ "total_amount" ∷ "paid_amount" ∷ "currency" ∷ "customer_reference" ∷ "customer_ref"
    ∷ "type" ∷ "refund_amount" ∷ "updated_at" ∷ "created_at" ∷ []

-- `mask_customer_reference` of a text
unfoldable pub mask_text : String → Option String
unfolding strip_text drop_text concat
mask_text s =
    let normalized = strip_text s in
    if normalized == ""
    then none
    else if leb (text_length normalized) 4
    then some "****"
    else some (concat "****" (drop_text (text_length normalized - 4) normalized))

abbrev pub or_null : Option String → Json
or_null none = null
or_null (some s) = str s

module _ (show : Json → String) where
  -- `mask_customer_reference`; `show` is `str` of a value
  unfoldable pub mask_customer_reference : Option Json → Option String
  unfolding mask_text
  mask_customer_reference none = none
  mask_customer_reference (some null) = none
  mask_customer_reference (some v) = mask_text (show v)

  -- the kept entries, with the references to customers masked
  unfoldable pub summarized : Fields → Fields
  unfolding summary_keys mask_customer_reference
  summarized end = end
  summarized (field k v d) =
      let rest = summarized d in
      if not (any (λ a. a == k) summary_keys)
      then rest
      else if k == "customer_reference" || k == "customer_ref"
      then field k (or_null (mask_customer_reference (some v))) rest
      else field k v rest

  -- `_safe_summary`
  unfoldable pub safe_summary : Fields → Fields
  unfolding summarized redact_fields
  safe_summary raw = summarized (redact_fields raw)
