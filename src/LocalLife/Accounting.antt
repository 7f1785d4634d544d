-- ===== src/LocalLife/Accounting.antt =====
-- `reconciliation_summary` of backend/poi_admin/local_life/accounting.py.
pub mod Differences
pub mod Pages
pub mod Sync
use Prim.Native.Nat.{Ordering}
use Prim.Native.String.{compare}
use poi_hub.Base.{
  ℕ, String, ◌+◌, Bool, true, false, not, Option, none, some, List, [], ◌∷◌, ◌++◌, ◌&&◌, ◌==◌,
  if◌then◌else◌,
}
use poi_hub.Base.Int.{ℤ, pos, ◌+ℤ◌, ◌-ℤ◌, eqb_ℤ}
use poi_hub.Base.Text.{strip_text}
use poi_hub.Base.Rows.{length, find, any, select, write}
use poi_hub.Base.Json.{Json, Fields, get, is_truthy, or_value}

-- the columns of `FundsFlow` and of `VoucherBill` that the summary reads
pub record Entry : Type 0 where
  pub id : String
  pub external_id : String
  pub entry_type : Option String
  pub amount : ℤ
  pub currency : String
  pub occurred_at : Option ℕ
  pub raw_summary : Fields

pub record Total : Type 0 where
  pub order_id : String
  pub total : ℤ

pub record Difference : Type 0 where
  pub external_id : String
  pub fund_amount : ℤ
  pub bill_amount : ℤ
  pub difference : ℤ

pub record Summary : Type 0 where
  pub fund_count : ℕ
  pub bill_count : ℕ
  pub fund_total : ℤ
  pub bill_total : ℤ
  pub difference : ℤ
  pub difference_count : ℕ
  pub differences : List Difference
  pub linked_order_count : ℕ
  pub unmatched_fund_count : ℕ
  pub unmatched_bill_count : ℕ
  pub funds : List Entry
  pub bills : List Entry

abbrev is_total : String → Total → Bool
is_total key t = t.order_id == key

-- `totals[key]`
unfoldable pub amount_of : String → List Total → ℤ
amount_of key [] = pos 0
amount_of key (t ∷ ts) = if t.order_id == key then t.total else amount_of key ts

-- `totals[key] += amount`
unfoldable pub add_amount : String → ℤ → List Total → List Total
unfolding ◌+ℤ◌
add_amount key amount [] = record { order_id = key; total = amount } ∷ []
add_amount key amount (t ∷ ts) =
    let rest = add_amount key amount ts in
    if t.order_id == key then record t { total = t.total +ℤ amount } ∷ ts else t ∷ rest

unfoldable sum : List ℤ → ℤ
unfolding ◌+ℤ◌
sum [] = pos 0
sum (x ∷ xs) = x +ℤ sum xs

map_list : {A B : Type 0} → (A → B) → List A → List B
map_list f [] = []
map_list f (x ∷ xs) = f x ∷ map_list f xs

-- the order of two texts by their code points
before : String → String → Bool
before a b = elim (compare a b) [ Ordering.lt ↦ true | _ ↦ false ]

insert : Total → List Total → List Total
unfolding before
insert t [] = t ∷ []
insert t (u ∷ us) =
    let rest = insert t us in if before t.order_id u.order_id then t ∷ u ∷ us else u ∷ rest

-- `sorted`, by the order
unfoldable pub sorted : List Total → List Total
unfolding insert
sorted [] = []
sorted (t ∷ ts) = insert t (sorted ts)

-- `py_str` is `str` of a value.
module _ (py_str : Json → String) where
  -- `str(raw.get("order_id") or "").strip()`
  unfoldable pub order_of : Entry → String
  unfolding strip_text is_truthy
  order_of e =
      strip_text
        (elim (or_value (get "order_id" e.raw_summary) none) [ none ↦ "" | some v ↦ py_str v ])

  -- The loop over the entries, from the totals of those before.
  unfoldable pub by_order : List Entry → List Total → List Total
  unfolding order_of add_amount
  by_order [] totals = totals
  by_order (e ∷ es) totals =
      if order_of e == ""
      then by_order es totals
      else by_order es (add_amount (order_of e) e.amount totals)

  unfoldable unlinked_count : List Entry → ℕ
  unfolding order_of
  unlinked_count es = length (select (λ e. order_of e == "") es)

  abbrev pub has_order : List Total → Total → Bool
  has_order ts t = any (is_total t.order_id) ts

  abbrev pub difference_of : List Total → Total → Difference
  unfolding amount_of ◌-ℤ◌
  difference_of bills t = record {
    external_id = t.order_id;
    fund_amount = t.total;
    bill_amount = amount_of t.order_id bills;
    difference = t.total -ℤ amount_of t.order_id bills;
  }

  -- the orders whose totals differ
  unfoldable pub differences_of : List Total → List Total → List Difference
  unfolding amount_of ◌-ℤ◌
  differences_of bills [] = []
  differences_of bills (t ∷ ts) =
      let rest = differences_of bills ts in
      if eqb_ℤ (difference_of bills t).difference (pos 0)
      then rest
      else difference_of bills t ∷ rest

  unfoldable pub reconciliation_summary : List Entry → List Entry → Summary
  unfolding by_order unlinked_count differences_of sorted sum map_list
  reconciliation_summary funds bills =
      let funds_by_order = by_order funds [] in
      let bills_by_order = by_order bills [] in
      let linked = select (has_order bills_by_order) funds_by_order in
      let differences = differences_of bills_by_order (sorted linked) in
      record {
        fund_count = length funds;
        bill_count = length bills;
        fund_total = sum (map_list (λ (e : Entry). e.amount) funds);
        bill_total = sum (map_list (λ (e : Entry). e.amount) bills);
        difference = sum (map_list (λ (d : Difference). d.difference) differences);
        difference_count = length differences;
        differences = differences;
        linked_order_count = length linked;
        unmatched_fund_count =
            unlinked_count funds
            + length (select (λ t. not (has_order bills_by_order t)) funds_by_order);
        unmatched_bill_count =
            unlinked_count bills
            + length (select (λ t. not (has_order funds_by_order t)) bills_by_order);
        funds = funds;
        bills = bills;
      }
