-- ===== src/LocalLife/Vouchers/Model.antt =====
-- The row of a voucher of backend/poi_admin/local_life/models.py, its errors, and the helpers of
-- backend/poi_admin/local_life/vouchers.py.
use poi_hub.Base.{
  ℕ, zero, suc, String, ◌-◌, Bool, true, false, Option, none, some, List, [], ◌∷◌, ◌&&◌, ◌==◌, leb,
  if◌then◌else◌,
}
use poi_hub.Base.Text.{strip_text, text_length, drop_text, concat}
use poi_hub.Base.Rows.{find, any, write}
use poi_hub.Base.Json.{Json, str, arr, obj, Fields, end, field, get}
use poi_hub.Operations.Model.{Operation}
use poi_hub.Operations.Enqueue.{OperationError}
use poi_hub.Stores.Model.{Store, Mapping}

-- `LocalVoucher`
pub record Voucher : Type 0 where
  pub id : String
  pub tenant_id : String
  pub connection_id : String
  pub order_id : Option String
  pub external_voucher_id : String
  pub code_ciphertext : Option String
  pub external_product_id : Option String
  pub external_sku_id : Option String
  pub code_masked : String
  pub state : String
  pub valid_from : Option ℕ
  pub valid_until : Option ℕ
  pub consume_store_id : Option String
  pub last_consume_request_no : Option String
  pub consumed_at : Option ℕ
  pub revoked_at : Option ℕ
  pub raw_summary : Fields
  pub last_synced_at : Option ℕ

pub record VoucherDb : Type 0 where
  pub vouchers : List Voucher
  pub stores : List Store
  pub mappings : List Mapping
  pub operations : List Operation

-- `VoucherServiceError` by its code and status, what `enqueue` raises, and the exception of
-- `scalar_one_or_none` on more than one row
pub data VoucherError : Type 0 where
  service : String → ℕ → VoucherError
  queue : OperationError → VoucherError
  multiple_results : VoucherError

-- `VoucherResult`
pub record VoucherResult : Type 0 where
  pub external_id : String
  pub state : String
  pub product_id : Option String
  pub consume_store_id : Option String
  pub raw : Fields

abbrev is_voucher : String → String → Voucher → Bool
is_voucher tenant i v = v.tenant_id == tenant && v.id == i

-- `_voucher`
unfoldable pub get_voucher : String → String → VoucherDb → Option Voucher
get_voucher tenant i db = find (is_voucher tenant i) db.vouchers

abbrev pub save_voucher : Voucher → VoucherDb → VoucherDb
save_voucher v db = record db {
  vouchers = write (is_voucher v.tenant_id v.id) (λ _. v) db.vouchers;
}

-- `"*" * n`
unfoldable pub stars : ℕ → String
stars zero = ""
stars (suc n) = concat "*" (stars n)

unfoldable pub mask_voucher_code : String → String
unfolding strip_text drop_text stars concat
mask_voucher_code value =
    let normalized = strip_text value in
    if value == ""
    then "****"
    else if leb (text_length normalized) 4
    then stars (text_length normalized)
    else concat (stars (text_length normalized - 4))
        (drop_text (text_length normalized - 4) normalized)

-- `value if isinstance(value, str) and value.strip()`
unfoldable text_value : Option Json → Option String
unfolding strip_text
text_value (some (str s)) = if strip_text s == "" then none else some s
text_value _ = none

or_else : Option String → Option String → Option String
or_else none b = b
or_else (some a) b = some a

-- `_raw_code`
unfoldable pub raw_code : Fields → Option String
unfolding text_value or_else
raw_code raw = or_else (text_value (get "code" raw)) (
    or_else (text_value (get "voucher_code" raw))
      (or_else (text_value (get "consume_code" raw)) (text_value (get "coupon_code" raw))))

is_plain : Json → Bool
is_plain (obj d) = false
is_plain (arr xs) = false
is_plain _ = true

abbrev safe_keys : List String
safe_keys =
    "status" ∷ "state" ∷ "product_id" ∷ "sku_id" ∷ "valid_from" ∷ "valid_until" ∷ "consume_store_id"
    ∷ "consume_store_name" ∷ "out_store_id" ∷ "order_id" ∷ "voucher_type" ∷ "code_type" ∷ []

-- `_safe_raw`
unfoldable pub safe_raw : Fields → Fields
unfolding is_plain
safe_raw end = end
safe_raw (field k v r) =
    let rest = safe_raw r in
    if any (λ a. a == k) safe_keys && is_plain v then field k v rest else rest
