-- ===== src/LocalLife/Orders/Handlers.antt =====
-- The handlers of order and after-sale operations, of backend/poi_admin/local_life/orders.py. What a
-- handler has written when it raises stands beside the failure, since the session that marks the
-- operation failed commits it.
pub mod Mirrored
use poi_hub.Base.{
  ℕ, suc, String, Bool, true, false, not, Option, none, some, List, [], ◌∷◌, ◌++◌, ◌&&◌, ◌==◌,
  if◌then◌else◌,
}
use poi_hub.Base.Int.{ℤ, pos, eqb_ℤ}
use poi_hub.Base.Parse.{to_int}
use poi_hub.Base.Rows.{find, write, length}
use poi_hub.Base.Json.{
  Json, null, bool, int, str, arr, obj, Items, nil, cons, Fields, end, field, get, get_str,
  is_truthy, or_value,
}
use poi_hub.Base.Result.{Result, ok, err, ◌>>=◌, ◌>>◌}
use poi_hub.Connections.Ports.{terminal}
use poi_hub.Operations.Model.{Operation}
use poi_hub.Operations.Errors.{Failure, gateway, other}
use poi_hub.Operations.Enqueue.{Connection}
use poi_hub.LocalLife.Products.Handlers.{raise, require}
use poi_hub.LocalLife.Vouchers.Model.{Voucher, VoucherResult}
use poi_hub.LocalLife.Vouchers.Remote.{upsert_remote_voucher}
use poi_hub.LocalLife.Orders.Model.{
  Order, AfterSale, OrderDb, OrderError, service, queue, get_order, save_order,
  mask_customer_reference, safe_summary,
}
use poi_hub.LocalLife.Orders.Service.{connection_of}

-- `OrderResult`
pub record OrderResult : Type 0 where
  pub external_id : String
  pub status : String
  pub total_amount : ℤ
  pub raw : Fields

-- the calls of `LocalLifeGateway` on orders
pub record OrderGateway : Type 0 where
  pub get_order : String → Result Failure OrderResult
  pub get_after_sale : String → Result Failure Fields

-- what becomes of a call, with the database as it stands then
abbrev pub Outcome : Type 0
Outcome = Result Failure Fields × OrderDb

message_of : String → String
message_of code = if code == "connection_not_found" then "连接不存在" else "连接不支持微信团购订单"

-- an error of the service as the gateway's
unfoldable as_terminal : {A : Type 0} → Result OrderError A → Result Failure A
unfolding message_of
as_terminal (ok a) = ok a
as_terminal (err (service code status)) = err (gateway (terminal (message_of code) code))
as_terminal (err (queue e)) = err other

-- `connect` is the rest of `ConnectionService.gateway`.
module _ (connections : List Connection) (connect : String → Result Failure OrderGateway) where
  unfoldable pub gateway_for : Operation → String → Result Failure OrderGateway
  unfolding connection_of as_terminal
  gateway_for op connection = do
    c ← as_terminal (connection_of connections op.tenant_id connection)
    connect c.id

-- `states.get(int(status), "available")`
unfoldable listed_state : Option Json → String
unfolding to_int
listed_state none = "available"
listed_state (some v) = elim (to_int v) [
  | none ↦ "available"
  | some n ↦
      if eqb_ℤ n (pos 2)
      then "consumed"
      else if eqb_ℤ n (pos 3)
      then "refunded"
      else if eqb_ℤ n (pos 4)
      then "expired"
      else if eqb_ℤ n (pos 5)
      then "reserved"
      else "available"
]

-- `show` is `str` of a value, `parse_dt` is `_parse_datetime`, `checksum` the digest of `repr` of a
-- summary; the last two are those of the voucher service.
module _ (show : Json → String) (parse_dt : Json → Option ℕ) (checksum : Fields → String)
    (sha256 : String → String) (seal : Option (Fields → String)) where
  -- `str(value or "") or None`
  unfoldable text_or_none : Option Json → Option String
  unfolding is_truthy
  text_or_none none = none
  text_or_none (some v) =
      if is_truthy v then (if show v == "" then none else some (show v)) else none

  -- an entry of the voucher list, if it has a code
  unfoldable voucher_result : Json → Option VoucherResult
  unfolding text_or_none listed_state
  voucher_result (obj d) = elim (get_str "code" d) [
    | none ↦ none
    | some code ↦
        if code == ""
        then none
        else some (record {
          external_id = code;
          state = listed_state (get "status" d);
          product_id = text_or_none (get "product_id" d);
          consume_store_id =
              text_or_none (or_value (get "out_store_id" d) (get "consume_store_name" d));
          raw = d;
        })
  ]
  voucher_result _ = none

  unfoldable voucher_results : Items → List VoucherResult
  unfolding voucher_result
  voucher_results nil = []
  voucher_results (cons x xs) =
      let rest = voucher_results xs in elim (voucher_result x) [ none ↦ rest | some r ↦ r ∷ rest ]

  -- The vouchers of a result; a value that cannot be iterated raises, and the characters of a text
  -- and the keys of a dictionary are no dictionaries.
  unfoldable pub listed_vouchers : Option Json → Result Failure (List VoucherResult)
  unfolding voucher_results
  listed_vouchers none = ok []
  listed_vouchers (some (arr xs)) = ok (voucher_results xs)
  listed_vouchers (some (str s)) = ok []
  listed_vouchers (some (obj d)) = ok []
  listed_vouchers (some _) = err other

  -- the vouchers one after the other, as far as none raises; `new_id n` is the id of a new row
  unfoldable upsert_all :
      List Connection
      → (ℕ → String)
      → ℕ
      → ℕ
      → Order
      → List VoucherResult
      → List Voucher
      → Result Failure Unit × List Voucher
  unfolding upsert_remote_voucher
  upsert_all connections new_id n now o [] table = (ok tt, table)
  upsert_all connections new_id n now o (r ∷ rs) table =
      elim (upsert_remote_voucher show parse_dt sha256 seal connections (new_id n) now o.tenant_id
        o.connection_id r (some o.id) table) [
          | err e ↦ (err other, table)
          | ok (v, table') ↦ upsert_all connections new_id (suc n) now o rs table'
        ]

  -- the order with its status and its total
  abbrev pub restated : OrderResult → Order → Order
  restated r o = record o { status = r.status; total_amount = r.total_amount }

  date_of : Option Json → Option ℕ
  date_of none = none
  date_of (some v) = parse_dt v

  unfoldable pub currency_of : Option Json → String
  currency_of none = "CNY"
  currency_of (some v) = show v

  unfoldable pub first_of : Option Json → Option Json → Option Json
  first_of none b = b
  first_of (some a) b = some a

  -- the order with all that a result says of it
  unfoldable pub mirrored : OrderResult → ℤ → ℕ → Order → Order
  unfolding currency_of mask_customer_reference safe_summary date_of first_of
  mirrored r paid now o = record (restated r o) {
    paid_amount = paid;
    currency = currency_of (get "currency" r.raw);
    customer_reference_masked =
        mask_customer_reference show
          (first_of (get "customer_reference" r.raw) (get "customer_ref" r.raw));
    raw_summary = safe_summary show r.raw;
    raw_checksum = some (checksum (safe_summary show r.raw));
    remote_updated_at = date_of (get "updated_at" r.raw);
    last_synced_at = some now;
  }

  -- `int(raw.get("paid_amount", total_amount))`
  unfoldable pub paid_of : OrderResult → Option ℤ
  unfolding to_int
  paid_of r = elim (get "paid_amount" r.raw) [ none ↦ some r.total_amount | some v ↦ to_int v ]

  order_reply : Order → ℕ → Fields
  order_reply o n = field "order_id" (str o.id) (
      field "external_order_id" (str o.external_order_id) (field "voucher_count" (int (pos n)) end))

  -- the vouchers of an order that is written already
  unfoldable pub apply_vouchers :
      List Connection → (ℕ → String) → ℕ → Order → Option Json → OrderDb → Outcome
  unfolding listed_vouchers upsert_all order_reply
  apply_vouchers connections new_id now o listed db = elim (listed_vouchers listed) [
    | err e ↦ (err e, db)
    | ok rs ↦
        let (done, table) = upsert_all connections new_id 0 now o rs db.vouchers in
        (done >> ok (order_reply o (length rs)), record db { vouchers = table })
  ]

  -- what a result of the gateway writes
  unfoldable pub apply_order :
      List Connection → (ℕ → String) → ℕ → Order → OrderResult → OrderDb → Outcome
  unfolding paid_of mirrored apply_vouchers
  apply_order connections new_id now o r db = elim (paid_of r) [
    | none ↦ (err other, save_order (restated r o) db)
    | some paid ↦
        apply_vouchers connections new_id now (mirrored r paid now o) (get "voucher_list" r.raw)
          (save_order (mirrored r paid now o) db)
  ]

  -- the order of an operation, and what the gateway says of it
  unfoldable pub fetch_order :
      List Connection
      → (String → Result Failure OrderGateway)
      → Operation
      → OrderDb
      → Result Failure (Order × OrderResult)
  unfolding require get_order gateway_for
  fetch_order connections connect op db = do
    i ← require (get_str "order_id" op.payload) "订单操作参数无效" "invalid_operation_payload"
    o ← require (get_order op.tenant_id i db.orders) "订单不存在" "order_not_found"
    g ← gateway_for connections connect op o.connection_id
    r ← g.get_order o.external_order_id
    ok (o, r)

  unfoldable pub sync_order :
      List Connection
      → (String → Result Failure OrderGateway)
      → (ℕ → String)
      → ℕ
      → Operation
      → OrderDb
      → Outcome
  unfolding fetch_order apply_order
  sync_order connections connect new_id now op db = elim (fetch_order connections connect op db) [
    | err e ↦ (err e, db)
    | ok (o, r) ↦ apply_order connections new_id now o r db
  ]

  sale_type : Option Json → Option String
  sale_type none = none
  sale_type (some null) = none
  sale_type (some v) = some (show v)

  unknown_or : Option Json → String
  unknown_or none = "unknown"
  unknown_or (some v) = show v

  -- `int(raw.get("refund_amount", raw.get("amount", 0)))`, or 0 where that raises
  refund_of : Fields → ℤ
  unfolding first_of to_int
  refund_of raw = elim (first_of (get "refund_amount" raw) (get "amount" raw)) [
    | none ↦ pos 0
    | some v ↦ elim (to_int v) [ none ↦ pos 0 | some n ↦ n ]
  ]

  -- the after-sale with what the gateway says of it
  unfoldable sale_mirrored : Fields → ℕ → AfterSale → AfterSale
  unfolding unknown_or first_of sale_type refund_of safe_summary
  sale_mirrored raw now a = record a {
    status = unknown_or (first_of (get "status" raw) (get "state" raw));
    after_sale_type = sale_type (get "type" raw);
    refund_amount = refund_of raw;
    raw_summary = safe_summary show raw;
    last_synced_at = some now;
  }

  abbrev is_sale : String → String → AfterSale → Bool
  is_sale tenant i a = a.tenant_id == tenant && a.id == i

  unfoldable pub sync_after_sale :
      List Connection
      → (String → Result Failure OrderGateway)
      → ℕ
      → Operation
      → OrderDb
      → Result Failure (Fields × OrderDb)
  unfolding require gateway_for sale_mirrored
  sync_after_sale connections connect now op db = do
    i ← require (get_str "after_sale_id" op.payload) "售后操作参数无效" "invalid_operation_payload"
    a ← require (find (is_sale op.tenant_id i) db.after_sales) "售后记录不存在" "after_sale_not_found"
    g ← gateway_for connections connect op a.connection_id
    raw ← g.get_after_sale a.external_after_sale_id
    ok (
      field "after_sale_id" (str a.id) (field "status" (str (sale_mirrored raw now a).status) end),
      record db {
        after_sales = write (is_sale op.tenant_id i) (sale_mirrored raw now) db.after_sales;
      },
    )
