-- ===== src/LocalLife/Tests/Accounting.antt =====
-- Runs of the summary of the accounts of backend/poi_admin/local_life on concrete rows.
use poi_hub.Base.Result.{Result, ok}
use poi_hub.Operations.Errors.{Failure}
use poi_hub.LocalLife.Accounting.Pages.{fetch_all}
use poi_hub.LocalLife.Accounting.Pages.Complete.{last, more, fetch_all-Serves}
use poi_hub.Base.{Option, some, arith, ℕ, List, String, ◌≡◌, refl, none, [], ◌∷◌}
use poi_hub.Base.Int.{pos}
use poi_hub.Base.Json.{Json, str, int, obj, Fields, end, field}
use poi_hub.LocalLife.Accounting.Sync.{MirrorRow, upsert_entries, bill_id, described_bill}
use poi_hub.Base.Rows.{All}
use poi_hub.LocalLife.Accounting.{Entry, reconciliation_summary}
use poi_hub.LocalLife.Accounting.Differences.{Tells, reconciliation_summary-Tells}

abbrev text : Json → String
text (str t) = t
text _ = "value"

-- An order that is paid 120 and billed 100, and a fund without an order.
abbrev entry : String → ℕ → Fields → Entry
entry i amount raw = record {
  id = i;
  external_id = i;
  entry_type = none;
  amount = pos amount;
  currency = "CNY";
  occurred_at = none;
  raw_summary = raw;
}

abbrev funds : List Entry
funds =
    entry "f-1" 70 (field "order_id" (str " o-1 ") end)
    ∷ entry "f-2" 50 (field "order_id" (str "o-1") end)
    ∷ entry "f-3" 9 end
    ∷ []

abbrev bills : List Entry
bills = entry "b-1" 100 (field "order_id" (str "o-1") end) ∷ []

reconciliation_summary-Tells_example :
    All (Tells text funds bills) (reconciliation_summary text funds bills).differences
reconciliation_summary-Tells_example = reconciliation_summary-Tells text funds bills

-- A gateway with two pages.
abbrev pages : Option String → Result Failure (List Json × Option String)
pages none = ok (str "a" ∷ [], some "next")
pages (some c) = ok (str "b" ∷ [], some "")

fetch_all-Serves_example : fetch_all "资金流水" pages ≡ ok (str "a" ∷ str "b" ∷ [])
fetch_all-Serves_example =
    fetch_all-Serves "资金流水" pages ("next" ∷ []) (str "a" ∷ str "b" ∷ [])
      (more none (str "a" ∷ []) "next" [] (str "b" ∷ []) refl refl
        (last (some "next") (str "b" ∷ []) (some "") refl refl))
      (refl, tt) (omega arith)

-- two bills of one voucher without an id, the second of which is a refund
abbrev paid : Fields
paid = field "code" (str "v-1") (field "mch_settle_amount" (int (pos 90)) end)

abbrev refunded : Fields
refunded = field "refund_amount" (int (pos 90)) paid

abbrev no_date : Json → Option ℕ
no_date v = none

abbrev digest : String → String
digest s = s

abbrev bill_rows : List MirrorRow
unfolding upsert_entries
bill_rows =
    upsert_entries (bill_id text no_date digest) (described_bill text no_date digest) (λ n. "b") 0
      "t" "c" (obj paid ∷ str "noise" ∷ obj refunded ∷ []) []

one_row :
    bill_rows
    ≡ record {
      tenant_id = "t";
      connection_id = "c";
      entry = record {
        id = "b";
        external_id = "bill:||v-1||";
        entry_type = some "refund";
        amount = pos 90;
        currency = "CNY";
        occurred_at = none;
        raw_summary =
            field "refund_amount" (int (pos 90)) (field "mch_settle_amount" (int (pos 90)) end);
      };
    }
      ∷ []
unfolding bill_rows upsert_entries bill_id described_bill
one_row = refl
