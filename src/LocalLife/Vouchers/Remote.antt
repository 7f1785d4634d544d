-- ===== src/LocalLife/Vouchers/Remote.antt =====
-- What a remote result writes into the mirror of a voucher: `upsert_remote_voucher`, and
-- `apply_remote` of the handlers, of backend/poi_admin/local_life/vouchers.py.
use poi_hub.Base.{
  ℕ, String, Bool, not, Option, none, some, List, [], ◌∷◌, ◌++◌, ◌&&◌, ◌||◌, ◌==◌, is_some,
  if◌then◌else◌,
}
use poi_hub.Base.Text.{concat}
use poi_hub.Base.Result.{Result, ok, err}
use poi_hub.Base.Rows.{any, write, select}
use poi_hub.Base.Json.{Json, null, str, Fields, end, field, get}
use poi_hub.Operations.Enqueue.{Connection, owns}
use poi_hub.LocalLife.Products.Handlers.{is_local_life}
use poi_hub.LocalLife.Vouchers.Model.{
  Voucher, VoucherError, service, multiple_results, VoucherResult, mask_voucher_code, raw_code,
  safe_raw,
}

-- `apply_remote`
unfoldable pub apply_remote : VoucherResult → ℕ → Voucher → Voucher
unfolding safe_raw
apply_remote r now v = record v {
  state = r.state;
  consume_store_id = r.consume_store_id;
  consumed_at =
      if r.state == "consumed"
      then (if is_some v.consumed_at then v.consumed_at else some now)
      else if r.state == "available"
      then none
      else v.consumed_at;
  revoked_at =
      if r.state == "consumed"
      then none
      else if r.state == "available"
      then some now
      else v.revoked_at;
  raw_summary = safe_raw r.raw;
  last_synced_at = some now;
}

or_text : Option String → Option String → Option String
or_text none b = b
or_text (some a) b = if a == "" then b else some a

or_default : Option Json → Option Json → Option Json
or_default none b = b
or_default (some a) b = some a

-- `py_str` is `str` of a value, `parse_dt` is `_parse_dt`, `sha256` the hexadecimal digest; `seal` is
-- `encrypt_secret_bundle` under the service's key, and `none` for a service without settings.
module _ (py_str : Json → String) (parse_dt : Json → Option ℕ) (sha256 : String → String)
    (seal : Option (Fields → String)) where
  -- `_str_or_none`
  abbrev str_or_none : Option Json → Option String
  str_or_none none = none
  str_or_none (some null) = none
  str_or_none (some v) = some (py_str v)

  date_of : Option Json → Option ℕ
  date_of none = none
  date_of (some v) = parse_dt v

  -- `_voucher_reference`
  unfoldable voucher_reference : String → Option String → String
  unfolding concat
  voucher_reference code sku =
      concat "voucher:" (sha256 (concat (elim sku [ none ↦ "" | some s ↦ s ]) (concat "\0" code)))

  abbrev code_for : VoucherResult → String
  unfolding raw_code
  code_for r = elim (raw_code r.raw) [ none ↦ r.external_id | some c ↦ c ]

  -- the reference under which the voucher is kept
  unfoldable pub reference : VoucherResult → String
  unfolding voucher_reference raw_code
  reference r =
      if is_some seal
      then voucher_reference (code_for r) (str_or_none (get "sku_id" r.raw))
      else r.external_id

  unfoldable blank_voucher : String → String → String → Option String → VoucherResult → Voucher
  unfolding reference
  blank_voucher new_id tenant connection order r = record {
    id = new_id;
    tenant_id = tenant;
    connection_id = connection;
    order_id = order;
    external_voucher_id = reference r;
    code_ciphertext = none;
    external_product_id = none;
    external_sku_id = none;
    code_masked = "";
    state = "available";
    valid_from = none;
    valid_until = none;
    consume_store_id = none;
    last_consume_request_no = none;
    consumed_at = none;
    revoked_at = none;
    raw_summary = end;
    last_synced_at = none;
  }

  -- the columns that a remote result sets
  unfoldable pub mirror : VoucherResult → Option String → ℕ → Voucher → Voucher
  unfolding reference mask_voucher_code safe_raw raw_code or_text or_default date_of
  mirror r order now v = record v {
    order_id = if is_some order then order else v.order_id;
    external_voucher_id = reference r;
    code_ciphertext = elim seal [
      | none ↦ v.code_ciphertext
      | some f ↦
          if code_for r == ""
          then v.code_ciphertext
          else some (f (field "code" (str (code_for r)) end))
    ];
    external_product_id = or_text r.product_id (str_or_none (get "product_id" r.raw));
    external_sku_id = str_or_none (get "sku_id" r.raw);
    code_masked = mask_voucher_code (code_for r);
    state = r.state;
    consume_store_id = or_text r.consume_store_id (str_or_none (get "consume_store_id" r.raw));
    valid_from = date_of (or_default (get "valid_from" r.raw) (get "start_time" r.raw));
    valid_until = date_of (or_default (get "valid_until" r.raw) (get "end_time" r.raw));
    consumed_at =
        if r.state == "consumed"
        then (if is_some v.consumed_at then v.consumed_at else some now)
        else none;
    raw_summary = safe_raw r.raw;
    last_synced_at = some now;
  }

  -- a voucher of the connection that is kept under the reference, or under the plain code
  unfoldable is_mirror : String → String → VoucherResult → Voucher → Bool
  unfolding reference
  is_mirror tenant connection r v =
      v.tenant_id == tenant
      && v.connection_id == connection
      && (v.external_voucher_id == reference r || v.external_voucher_id == r.external_id)

  -- more than one row makes `scalar_one_or_none` raise
  unfoldable pub upsert_remote_voucher :
      List Connection
      → String
      → ℕ
      → String
      → String
      → VoucherResult
      → Option String
      → List Voucher
      → Result VoucherError (Voucher × List Voucher)
  unfolding owns is_mirror blank_voucher mirror
  upsert_remote_voucher connections new_id now tenant connection r order table =
      if not (any (λ c. owns tenant connection c && is_local_life c.capability) connections)
      then err (service "connection_not_found" 404)
      else elim (select (is_mirror tenant connection r) table) [
        | [] ↦
            let v = mirror r order now (blank_voucher new_id tenant connection order r) in
            ok (v, table ++ v ∷ [])
        | v ∷ [] ↦
            ok (
              mirror r order now v,
              write (is_mirror tenant connection r) (mirror r order now) table,
            )
        | v ∷ w ∷ rest ↦ err multiple_results
      ]
