-- ===== src/LocalLife/Accounting/Sync.antt =====
-- The call that queues a synchronisation of accounts, and the handler `sync`, of
-- backend/poi_admin/local_life/accounting.py.
use poi_hub.Base.{
  ℕ, suc, String, Bool, true, false, not, Option, none, some, List, [], ◌∷◌, ◌++◌, ◌&&◌, ◌==◌, eqb,
  if◌then◌else◌,
}
use poi_hub.Base.Int.{ℤ, pos, eqb_ℤ}
use poi_hub.Base.Parse.{to_int}
use poi_hub.Base.Text.{codes, concat, strip_text}
use poi_hub.Base.Rows.{find, any, write}
use poi_hub.Base.Json.{Json, null, str, arr, obj, Fields, end, field, get, get_str}
use poi_hub.Base.Result.{Result, ok, err, ◌>>=◌}
use poi_hub.Operations.Model.{Operation}
use poi_hub.Operations.Errors.{Failure}
use poi_hub.Operations.Enqueue.{Connection, OperationError, owns, enqueue}
use poi_hub.LocalLife.Products.Handlers.{is_local_life, require}
use poi_hub.LocalLife.Accounting.{Entry, Summary, reconciliation_summary}
use poi_hub.LocalLife.Accounting.Pages.{fetch_all}

-- a row of `FundsFlow` or of `VoucherBill`
pub record MirrorRow : Type 0 where
  pub tenant_id : String
  pub connection_id : String
  pub entry : Entry

pub record AccountingDb : Type 0 where
  pub funds : List MirrorRow
  pub bills : List MirrorRow

-- `AccountingServiceError` by its code and status, and what `enqueue` raises
data AccountingError : Type 0 where
  service : String → ℕ → AccountingError
  queue : OperationError → AccountingError

abbrev accounting_sync_command : String
accounting_sync_command = "local_life.accounting.sync"

-- a connection of the tenant for Local Life
abbrev is_account : String → String → Connection → Bool
unfolding owns
is_account tenant i c = owns tenant i c && is_local_life c.capability

abbrev queued :
    Result OperationError (Operation × List Operation)
    → Result AccountingError (Operation × List Operation)
queued (ok a) = ok a
queued (err e) = err (queue e)

-- `new_id` and `now` are drawn.
unfoldable sync_accounting :
    (String → String)
    → Option (Fields → String)
    → List Connection
    → (tenant connection product bill_date key new_id : String) → ℕ
    → List Operation
    → Result AccountingError (Operation × List Operation)
unfolding is_account concat
sync_accounting sha256 seal connections tenant connection product bill_date key new_id now
      operations =
    elim (find (is_account tenant connection) connections) [
      | none ↦ err (service "connection_not_found" 404)
      | some c ↦ queued (
          enqueue sha256 seal connections
            (record {
              tenant_id = tenant;
              command_type = accounting_sync_command;
              idempotency_key = key;
              payload =
                  field "connection_id" (str connection)
                    (field "product_id" (str product) (field "bill_date" (str bill_date) end));
              connection_id = some connection;
              resource_ref = some (concat "local_accounting:" connection);
              max_attempts = 8;
              new_id = new_id;
              now = now;
            })
            operations operations)
    ]

allowed_keys : List String
allowed_keys =
    "type" ∷ "entry_type" ∷ "bill_type" ∷ "amount" ∷ "currency" ∷ "occurred_at" ∷ "created_at"
    ∷ "updated_at" ∷ "order_id" ∷ "voucher_id" ∷ "status" ∷ "product_id" ∷ "consume_store_name"
    ∷ "out_store_id" ∷ "voucher_buy_amount" ∷ "voucher_pay_amount" ∷ "mch_favor_amount"
    ∷ "platform_favor_amount" ∷ "mch_settle_amount" ∷ "finder_settle_amount" ∷ "commission_fee"
    ∷ "consume_time" ∷ "refund_time" ∷ "mch_settle_time" ∷ "commission_fee_settle_time"
    ∷ "refund_amount" ∷ "after_sale_id" ∷ []

is_nested : Json → Bool
is_nested (obj d) = true
is_nested (arr xs) = true
is_nested _ = false

-- `_safe_entry`
unfoldable safe_entry : Fields → Fields
unfolding allowed_keys is_nested
safe_entry end = end
safe_entry (field k v d) =
    let rest = safe_entry d in
    if any (λ a. a == k) allowed_keys && not (is_nested v) then field k v rest else rest

-- `_as_int` of a value that may be missing
unfoldable amount_or_zero : Option Json → ℤ
unfolding to_int
amount_or_zero none = pos 0
amount_or_zero (some v) = elim (to_int v) [ none ↦ pos 0 | some n ↦ n ]

-- `raw.get(a, …)`: the value under the first of the keys that is there
unfoldable pub first_of : List String → Fields → Option Json
first_of [] raw = none
first_of (k ∷ ks) raw =
    let rest = first_of ks raw in elim (get k raw) [ none ↦ rest | some v ↦ some v ]

unfoldable pub is_row : String → String → String → MirrorRow → Bool
is_row tenant c external r =
    r.tenant_id == tenant && r.connection_id == c && r.entry.external_id == external

abbrev map_entry : (Entry → Entry) → MirrorRow → MirrorRow
map_entry f r = record r { entry = f r.entry }

-- the entry of a new row, with the columns' defaults
unfoldable blank_entry : String → String → Entry
blank_entry i external = record {
  id = i;
  external_id = external;
  entry_type = none;
  amount = pos 0;
  currency = "CNY";
  occurred_at = none;
  raw_summary = end;
}

-- The loop over the entries of all pages: an entry that is no dictionary or has no id is passed over.
-- `identify` is its id, `describe` what it writes; `new_id n` is the id that the n-th draws.
unfoldable pub upsert_entries :
    (Fields → Option String)
    → (Fields → Entry → Entry)
    → (ℕ → String)
    → ℕ
    → (tenant connection : String) → List Json
    → List MirrorRow
    → List MirrorRow
unfolding is_row blank_entry
upsert_entries identify describe new_id n tenant c [] table = table
upsert_entries identify describe new_id n tenant c (obj raw ∷ rest) table =
    upsert_entries identify describe new_id (suc n) tenant c rest (elim (identify raw) [
      | none ↦ table
      | some external ↦ elim (find (is_row tenant c external) table) [
        | some r ↦ write (is_row tenant c external) (map_entry (describe raw)) table
        | none ↦
            table
            ++ record {
              tenant_id = tenant;
              connection_id = c;
              entry = describe raw (blank_entry (new_id n) external);
            }
              ∷ []
      ]
    ])
upsert_entries identify describe new_id n tenant c (v ∷ rest) table =
    upsert_entries identify describe new_id (suc n) tenant c rest table

-- the two calls of the gateway, by the cursor; the bills are those of a product and a date
pub record AccountGateway : Type 0 where
  pub list_funds : Option String → Result Failure (List Json × Option String)
  pub list_bills : String → String → Option String → Result Failure (List Json × Option String)

-- `show` is `str` of a value, `as_datetime` is `_as_datetime`.
module _ (show : Json → String) (as_datetime : Json → Option ℕ) (sha256 : String → String) where
  unfoldable text_or : String → Option Json → String
  text_or default none = default
  text_or default (some v) = show v

  unfoldable date_of : Option Json → Option ℕ
  date_of none = none
  date_of (some v) = as_datetime v

  some_text : Option Json → Option String
  some_text none = none
  some_text (some null) = none
  some_text (some v) = some (show v)

  -- what follows when an id has been stripped
  filled_id : String → Option String
  filled_id s = if s == "" then none else some s

  unfoldable fund_id : Fields → Option String
  unfolding text_or strip_text filled_id first_of
  fund_id raw =
      filled_id (strip_text (text_or "" (first_of ("id" ∷ "external_id" ∷ "flow_id" ∷ []) raw)))

  unfoldable joined : List String → Fields → String
  unfolding text_or concat
  joined [] raw = ""
  joined (k ∷ []) raw = text_or "" (get k raw)
  joined (k ∷ l ∷ ks) raw = concat (text_or "" (get k raw)) (concat "|" (joined (l ∷ ks) raw))

  -- the id of a bill, or the digest of what identifies it
  unfoldable pub bill_id : Fields → Option String
  unfolding text_or strip_text joined concat first_of
  bill_id raw =
      let external = strip_text (text_or "" (first_of ("id" ∷ "external_id" ∷ []) raw)) in
      let identity =
        joined ("product_id" ∷ "order_id" ∷ "code" ∷ "time_index" ∷ "consume_time" ∷ []) raw in
      if not (external == "")
      then some external
      else if any (λ k. not (eqb k b'|')) (codes identity)
      then some (concat "bill:" (sha256 identity))
      else none

  unfoldable described_fund : Fields → Entry → Entry
  unfolding some_text amount_or_zero text_or date_of safe_entry first_of
  described_fund raw e = record e {
    entry_type = some_text (first_of ("entry_type" ∷ "type" ∷ []) raw);
    amount = amount_or_zero (get "amount" raw);
    currency = text_or "CNY" (get "currency" raw);
    occurred_at = date_of (first_of ("occurred_at" ∷ "created_at" ∷ []) raw);
    raw_summary = safe_entry raw;
  }

  unfoldable pub described_bill : Fields → Entry → Entry
  unfolding amount_or_zero text_or date_of safe_entry first_of
  described_bill raw e = record e {
    entry_type = some (
        if eqb_ℤ (amount_or_zero (get "refund_amount" raw)) (pos 0)
        then "settlement"
        else "refund");
    amount = amount_or_zero (first_of ("mch_settle_amount" ∷ "amount" ∷ []) raw);
    currency = text_or "CNY" (get "currency" raw);
    occurred_at = date_of (first_of ("mch_settle_time" ∷ "consume_time" ∷ "occurred_at" ∷ []) raw);
    raw_summary = safe_entry raw;
  }

  -- `connect` is the rest of `ConnectionService.gateway`.
  unfoldable pub gateway_for :
      List Connection
      → (String → Result Failure AccountGateway)
      → Operation
      → String
      → Result Failure AccountGateway
  unfolding require is_account
  gateway_for connections connect op connection = do
    c ←
        require (find (is_account op.tenant_id connection) connections) "连接不存在"
          "connection_not_found"
    connect c.id

  -- what both loops over the pages bring
  unfoldable fetch_accounts :
      List Connection
      → (String → Result Failure AccountGateway)
      → Operation
      → Result Failure (String × (List Json × List Json))
  unfolding require gateway_for fetch_all
  fetch_accounts connections connect op = do
    connection ← require (get_str "connection_id" op.payload) "对账操作参数无效" "invalid_operation_payload"
    g ← gateway_for connections connect op connection
    product ← require (get_str "product_id" op.payload) "对账查询维度无效" "invalid_operation_payload"
    bill_date ← require (get_str "bill_date" op.payload) "对账查询维度无效" "invalid_operation_payload"
    funds ← fetch_all "资金流水" g.list_funds
    bills ← fetch_all "券账单" (g.list_bills product bill_date)
    ok (connection, (funds, bills))

  entries_of : String → List MirrorRow → List Entry
  entries_of tenant [] = []
  entries_of tenant (r ∷ rs) =
      let rest = entries_of tenant rs in if r.tenant_id == tenant then r.entry ∷ rest else rest

  -- The handler. Its answer is the summary, whose counts replace those of the pages. `ordered` is
  -- `ORDER BY occurred_at DESC, id`, in which the database gives a missing time its place.
  unfoldable pub sync :
      List Connection
      → (String → Result Failure AccountGateway)
      → (List Entry → List Entry)
      → (fund_ids bill_ids : ℕ → String) → Operation
      → AccountingDb
      → Result Failure (Summary × AccountingDb)
  unfolding fetch_accounts upsert_entries fund_id bill_id described_fund described_bill entries_of
      reconciliation_summary
  sync connections connect ordered fund_ids bill_ids op db = do
    (connection, (funds, bills)) ← fetch_accounts connections connect op
    let f = upsert_entries fund_id described_fund fund_ids 0 op.tenant_id connection funds db.funds
    let b = upsert_entries bill_id described_bill bill_ids 0 op.tenant_id connection bills db.bills
    ok (
      reconciliation_summary show (ordered (entries_of op.tenant_id f))
          (ordered (entries_of op.tenant_id b)),
      record db { funds = f; bills = b },
    )
