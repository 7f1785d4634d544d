-- ===== src/LocalLife/Orders/Handlers/Mirrored.antt =====
-- What a synchronization writes of an order, of backend/poi_admin/local_life/orders.py.
use poi_hub.Base.{
  ℕ, ◌-◌, String, ◌≡◌, refl, sym, subst, Option, none, some, List, ◌⊎◌, ◌==◌, leb, true, arith,
  eq_iff, Bool-cases, inl, inr,
}
use poi_hub.Base.Int.{ℤ}
use poi_hub.Base.Text.{strip_text, text_length, drop_text}
use poi_hub.Base.Rows.{find, write}
use poi_hub.Base.Rows.Laws.{find-write_self, find-test}
use poi_hub.Base.Json.{Json, null, str, Fields, get, get_str}
use poi_hub.Base.Result.{Result, ok, err, after_ok}
use poi_hub.Operations.Model.{Operation}
use poi_hub.Operations.Errors.{Failure, other}
use poi_hub.Operations.Enqueue.{Connection}
use poi_hub.LocalLife.Products.Handlers.{require}
use poi_hub.LocalLife.Orders.Model.{
  Order, OrderDb, is_order, get_order, save_order, mask_text, or_null,
}
use poi_hub.LocalLife.Orders.Summaries.{Masks, text_length-drop_text, drop_text-parts, is_shown}
use poi_hub.LocalLife.Orders.Handlers.{
  OrderResult, OrderGateway, restated, paid_of, apply_order, fetch_order, sync_order, gateway_for,
}

-- What is shown of a reference to a customer, without the blanks around it: nothing if that leaves
-- nothing, four stars alone if it leaves at most four characters, and else four stars and the last four
-- of its characters, of which it has more.
pub mask_text_bound : (s : String) → Masks s (mask_text s)
unfolding mask_text
mask_text_bound s = elim (Bool-cases (strip_text s == "")) [
  | inl blank ↦ inl ((eq_iff (strip_text s) "").0 blank, rw blank refl)
  | inr full ↦ elim (Bool-cases (leb (text_length (strip_text s)) 4)) [
    | inl short ↦ inr (inl (full, short, rw (full, short) refl))
    | inr long ↦
        let n : ℕ = text_length (strip_text s) - 4 in
        let (hidden, parts, more) = drop_text-parts n (strip_text s) (ground arith) in
        inr (
          inr (
            hidden,
            drop_text n (strip_text s),
            parts,
            ground (arith, text_length-drop_text n (strip_text s)),
            ground arith,
            rw (full, long) refl,
          ))
  ]
]

-- the answer's reference to the customer
abbrev pub reference : Fields → Option Json
reference raw = elim (get "customer_reference" raw) [
  | none ↦ get "customer_ref" raw
  | some v ↦ some v
]

-- what a row may have of it
abbrev pub HidesReference : (Json → String) → Option Json → Option String → Type 0
HidesReference show none shown = shown ≡ none
HidesReference show (some null) shown = shown ≡ none
HidesReference show (some v) shown = Masks (show v) shown

-- what a summary may have of a reference that is a text
abbrev pub SummaryHides : (Json → String) → Option Json → Option Json → Type 0
SummaryHides show (some (str s)) kept =
    (m : Option String) × Masks (show (str s)) m × (kept ≡ some (or_null m))
SummaryHides show _ kept = Unit

required :
    {A : Type 0} (o : Option A) (message code : String) (a : A)
    → require o message code ≡ ok a
    → o ≡ some a
unfolding require
required none message code a e = absurd (ground arith)
required (some x) message code a e = ground arith

module _ (show : Json → String) (parse_dt : Json → Option ℕ) (checksum : Fields → String)
    (sha256 : String → String) (seal : Option (Fields → String)) where
  -- the order of an operation is a row
  fetch_order-row :
      (connections : List Connection) (connect : String → Result Failure OrderGateway)
      (op : Operation) (db : OrderDb) (o : Order) (r : OrderResult)
      → fetch_order show parse_dt checksum sha256 seal connections connect op db ≡ ok (o, r)
      → find (is_order o.tenant_id o.id) db.orders ≡ some o
  unfolding fetch_order get_order
  fetch_order-row connections connect op db o r e =
      after_ok (require (get_str "order_id" op.payload) "订单操作参数无效" "invalid_operation_payload") _
        (o, r) _
        (λ i _ r1.
          after_ok (require (get_order op.tenant_id i db.orders) "订单不存在" "order_not_found") _ (o, r)
            _
            (λ x a r2.
              after_ok (gateway_for connections connect op x.connection_id) _ (o, r) _
                (λ g _ r3.
                  after_ok (g.get_order x.external_order_id) _ (o, r) _
                    (λ y _ last.
                      let its : x ≡ o = ground arith in
                      let row : find (is_order op.tenant_id i) db.orders ≡ some o =
                        subst (λ z. find (is_order op.tenant_id i) db.orders ≡ some z) its
                          (required _ _ _ x a) in
                      let test = find-test (is_order op.tenant_id i) db.orders o row in
                      let t : o.tenant_id ≡ op.tenant_id =
                        (eq_iff o.tenant_id op.tenant_id).0 (ground arith) in
                      let k : o.id ≡ i = (eq_iff o.id i).0 (ground arith) in
                      subst (λ j. find (is_order o.tenant_id j) db.orders ≡ some o) (sym k)
                        (subst (λ j. find (is_order j i) db.orders ≡ some o) (sym t) row))
                    r3)
                r2)
            r1)
        e

  save_order-row :
      (o o' : Order) (db : OrderDb)
      → find (is_order o.tenant_id o.id) db.orders ≡ some o
      → o'.tenant_id ≡ o.tenant_id
      → o'.id ≡ o.id
      → get_order o.tenant_id o.id (write (is_order o.tenant_id o.id) (λ _. o') db.orders) ≡ some o'
  unfolding get_order
  save_order-row o o' db row t i =
      find-write_self (is_order o.tenant_id o.id) o' db.orders o row
        (ground (arith, eq_iff o'.tenant_id o.tenant_id, eq_iff o'.id o.id))

  -- the row `o'` that an answer leaves of the row `o`
  pub record Mirrors (r : OrderResult) (paid : ℤ) (now : ℕ) (o o' : Order) : Type 0 where
    pub same_row :
        (o'.id ≡ o.id)
        × (o'.tenant_id ≡ o.tenant_id)
        × (o'.connection_id ≡ o.connection_id)
        × (o'.external_order_id ≡ o.external_order_id)
    pub status : o'.status ≡ r.status
    pub total : o'.total_amount ≡ r.total_amount
    pub paid_is : o'.paid_amount ≡ paid
    pub currency : o'.currency ≡ elim (get "currency" r.raw) [ none ↦ "CNY" | some v ↦ show v ]
    pub synced : o'.last_synced_at ≡ some now
    pub hides : HidesReference show (reference r.raw) o'.customer_reference_masked
    pub drops : (k : String) → (is_shown k ≡ true) ⊎ (get k o'.raw_summary ≡ none)
    pub masks :
        SummaryHides show (get "customer_reference" r.raw) (get "customer_reference" o'.raw_summary)
    pub masks_short :
        SummaryHides show (get "customer_ref" r.raw) (get "customer_ref" o'.raw_summary)
    pub sums : o'.raw_checksum ≡ some (checksum o'.raw_summary)

  -- An answer whose `paid_amount` is no number fails the synchronization with an unclassified error,
  -- after it has written the status and the total of the order, and nothing else.
  pub sync_order_unpaid :
      (connections : List Connection) (connect : String → Result Failure OrderGateway)
      (new_id : ℕ → String) (now : ℕ) (op : Operation) (db : OrderDb) (o : Order) (r : OrderResult)
      → fetch_order show parse_dt checksum sha256 seal connections connect op db ≡ ok (o, r)
      → paid_of show parse_dt checksum sha256 seal r ≡ none
      → (sync_order show parse_dt checksum sha256 seal connections connect new_id now op db
          ≡ (err other, save_order (restated show parse_dt checksum sha256 seal r o) db))
        × (get_order o.tenant_id o.id
              (save_order (restated show parse_dt checksum sha256 seal r o) db).orders
            ≡ some (record o { status = r.status; total_amount = r.total_amount }))
  unfolding sync_order apply_order
  sync_order_unpaid connections connect new_id now op db o r fetched unpaid = (
    rw (sync_order, fetched, apply_order, unpaid) refl,
    save_order-row o (record o { status = r.status; total_amount = r.total_amount }) db
        (fetch_order-row connections connect op db o r fetched) refl refl,
  )
