-- ===== src/LocalLife/Accounting/Differences.antt =====
-- What the summary of backend/poi_admin/local_life/accounting.py tells of an order.
use poi_hub.Base.{
  String, ◌≡◌, refl, sym, ◌∙◌, Bool, true, false, List, [], ◌∷◌, ◌==◌, arith, eq_iff, eq_refl,
  Bool-cases, inl, inr, if◌then◌else◌,
}
use poi_hub.Base.Int.{ℤ, pos, ◌+ℤ◌, ◌-ℤ◌, eqb_ℤ, int_laws}
use poi_hub.Base.Rows.{All, any, select}
use poi_hub.Base.Rows.Laws.{Distinct, All-select}
use poi_hub.Base.Json.{Json}
use poi_hub.LocalLife.Accounting.{
  before, Entry, Total, Difference, amount_of, add_amount, insert, sorted, order_of, by_order,
  has_order, difference_of, differences_of, reconciliation_summary,
}

add_assoc : (a b c : ℤ) → (a +ℤ b) +ℤ c ≡ a +ℤ (b +ℤ c)
add_assoc a b c = grind int_laws

abbrev same_order : Total → Total → Bool
same_order a b = a.order_id == b.order_id

abbrev IsNamed : Total → Type 0
IsNamed t = t.order_id == "" ≡ false

any-add :
    (x : Total) (k : String) (a : ℤ) (t : List Total)
    → any (same_order x) t ≡ false
    → x.order_id == k ≡ false
    → any (same_order x) (add_amount k a t) ≡ false
unfolding add_amount
any-add x k a [] h e = ground arith
any-add x k a (t ∷ ts) h e = ground (arith, any-add x k a ts)

add-Distinct :
    (k : String) (a : ℤ) (t : List Total)
    → Distinct same_order t
    → Distinct same_order (add_amount k a t)
unfolding add_amount
add-Distinct k a [] d = (refl, tt)
add-Distinct k a (t ∷ ts) d = elim (Bool-cases (t.order_id == k)) [
  | inl hit ↦ rw hit (d.0, d.1)
  | inr miss ↦ rw miss (any-add t k a ts d.0 miss, add-Distinct k a ts d.1)
]

add-IsNamed :
    (k : String) (a : ℤ) (t : List Total)
    → k == "" ≡ false
    → All IsNamed t
    → All IsNamed (add_amount k a t)
unfolding add_amount
add-IsNamed k a [] n h = (n, tt)
add-IsNamed k a (t ∷ ts) n h = elim (Bool-cases (t.order_id == k)) [
  | inl hit ↦ rw hit (h.0, h.1)
  | inr miss ↦ rw miss (h.0, add-IsNamed k a ts n h.1)
]

-- a total is the amount that a lookup by its order finds
abbrev IsFound : List Total → Total → Type 0
IsFound ts t = amount_of t.order_id ts ≡ t.total

IsFound-skip :
    (t : Total) (ts us : List Total)
    → any (same_order t) us ≡ false
    → All (IsFound ts) us
    → All (IsFound (t ∷ ts)) us
unfolding amount_of
IsFound-skip t ts [] h k = tt
IsFound-skip t ts (u ∷ us) h k = (ground arith, IsFound-skip t ts us (ground arith) k.1)

Distinct-IsFound : (t : List Total) → Distinct same_order t → All (IsFound t) t
unfolding amount_of
Distinct-IsFound [] d = tt
Distinct-IsFound (t ∷ ts) d =
    (rw (eq_refl t.order_id) refl, IsFound-skip t ts ts d.0 (Distinct-IsFound ts d.1))

All-both : (P Q : Total → Type 0) (t : List Total) → All P t → All Q t → All (λ x. P x × Q x) t
All-both P Q [] h k = tt
All-both P Q (t ∷ ts) h k = ((h.0, k.0), All-both P Q ts h.1 k.1)

All-first : (P Q : Total → Type 0) (t : List Total) → All (λ x. P x × Q x) t → All P t
All-first P Q [] h = tt
All-first P Q (t ∷ ts) h = (h.0.0, All-first P Q ts h.1)

All-insert : (P : Total → Type 0) (x : Total) (t : List Total) → P x → All P t → All P (insert x t)
unfolding insert
All-insert P x [] h k = (h, tt)
All-insert P x (t ∷ ts) h k = elim (Bool-cases (before x.order_id t.order_id)) [
  | inl first ↦ rw first (h, (k.0, k.1))
  | inr later ↦ rw later (k.0, All-insert P x ts h k.1)
]

All-sorted : (P : Total → Type 0) (t : List Total) → All P t → All P (sorted t)
unfolding sorted
All-sorted P [] h = tt
All-sorted P (t ∷ ts) h = All-insert P t (sorted ts) h.0 (All-sorted P ts h.1)

module _ (py_str : Json → String) where
  -- the amounts of the entries of one order, added up
  pub order_sum : String → List Entry → ℤ
  unfolding order_of ◌+ℤ◌
  order_sum key [] = pos 0
  order_sum key (e ∷ es) =
      let rest = order_sum key es in if order_of py_str e == key then e.amount +ℤ rest else rest

  amount_of-add :
      (key k : String) (a : ℤ) (t : List Total)
      → amount_of key (add_amount k a t)
        ≡ (if k == key then amount_of key t +ℤ a else amount_of key t)
  unfolding amount_of add_amount
  amount_of-add key k a [] = grind int_laws
  amount_of-add key k a (t ∷ ts) =
      ground
        (arith, amount_of-add key k a ts, eq_iff t.order_id k, eq_iff t.order_id key, eq_iff k key)

  amount_of-by_order :
      (key : String) (es : List Entry) (t : List Total)
      → key == "" ≡ false
      → amount_of key (by_order py_str es t) ≡ amount_of key t +ℤ order_sum key es
  unfolding by_order order_sum
  amount_of-by_order key [] t named = grind int_laws
  amount_of-by_order key (e ∷ es) t named = elim (Bool-cases (order_of py_str e == "")) [
    | inl blank ↦
        let other : order_of py_str e == key ≡ false =
          ground
            (arith, eq_iff (order_of py_str e) "", eq_iff (order_of py_str e) key, eq_iff key "") in
        rw (blank, other) (amount_of-by_order key es t named)
    | inr linked ↦ rw linked (
        amount_of-by_order key es (add_amount (order_of py_str e) e.amount t) named
        ∙ rw (amount_of-add key (order_of py_str e) e.amount t)
            (elim (Bool-cases (order_of py_str e == key)) [
              | inl same ↦ rw same (add_assoc (amount_of key t) e.amount (order_sum key es))
              | inr other ↦ rw other refl
            ]))
  ]

  by_order-Distinct :
      (es : List Entry) (t : List Total)
      → Distinct same_order t
      → Distinct same_order (by_order py_str es t)
  unfolding by_order
  by_order-Distinct [] t d = d
  by_order-Distinct (e ∷ es) t d = elim (Bool-cases (order_of py_str e == "")) [
    | inl blank ↦ rw blank (by_order-Distinct es t d)
    | inr linked ↦ rw linked (
        by_order-Distinct es (add_amount (order_of py_str e) e.amount t)
          (add-Distinct (order_of py_str e) e.amount t d))
  ]

  by_order-IsNamed :
      (es : List Entry) (t : List Total) → All IsNamed t → All IsNamed (by_order py_str es t)
  unfolding by_order
  by_order-IsNamed [] t h = h
  by_order-IsNamed (e ∷ es) t h = elim (Bool-cases (order_of py_str e == "")) [
    | inl blank ↦ rw blank (by_order-IsNamed es t h)
    | inr linked ↦ rw linked (
        by_order-IsNamed es (add_amount (order_of py_str e) e.amount t)
          (add-IsNamed (order_of py_str e) e.amount t linked h))
  ]

  zero_add : (a : ℤ) → pos 0 +ℤ a ≡ a
  zero_add a = grind int_laws

  total-sum :
      (key : String) (es : List Entry)
      → key == "" ≡ false
      → amount_of key (by_order py_str es []) ≡ order_sum key es
  unfolding amount_of
  total-sum key es named = amount_of-by_order key es [] named ∙ zero_add (order_sum key es)

  -- What a difference tells of its order.
  pub record Tells (funds bills : List Entry) (d : Difference) : Type 0 where
    pub fund : d.fund_amount ≡ order_sum d.external_id funds
    pub bill : d.bill_amount ≡ order_sum d.external_id bills
    pub between : d.difference ≡ d.fund_amount -ℤ d.bill_amount
    pub some_difference : eqb_ℤ d.difference (pos 0) ≡ false

  differences-Tells :
      (funds bills : List Entry) (t : List Total)
      → All (λ x. IsNamed x × IsFound (by_order py_str funds []) x) t
      → All (Tells funds bills) (differences_of py_str (by_order py_str bills []) t)
  unfolding differences_of
  differences-Tells funds bills [] h = tt
  differences-Tells funds bills (t ∷ ts) h =
      elim (Bool-cases
        (eqb_ℤ (difference_of py_str (by_order py_str bills []) t).difference (pos 0))) [
          | inl equal ↦ rw equal (differences-Tells funds bills ts h.1)
          | inr differ ↦ rw differ (
            record {
              fund = sym h.0.1 ∙ total-sum t.order_id funds h.0.0;
              bill = total-sum t.order_id bills h.0.0;
              between = refl;
              some_difference = differ;
            },
            differences-Tells funds bills ts h.1,
          )
        ]

  -- Every difference of the summary is that of one order: its amounts are what the funds and the bills
  -- of the order add up to, the difference is the one less the other, and it is not zero.
  pub reconciliation_summary-Tells :
      (funds bills : List Entry)
      → All (Tells funds bills) (reconciliation_summary py_str funds bills).differences
  unfolding reconciliation_summary
  reconciliation_summary-Tells funds bills =
      let totals = by_order py_str funds [] in
      let mark : Total → Bool = has_order py_str (by_order py_str bills []) in
      let both =
        All-both IsNamed (IsFound totals) totals (by_order-IsNamed funds [] tt)
          (Distinct-IsFound totals (by_order-Distinct funds [] tt)) in
      differences-Tells funds bills _ (
        All-sorted (λ x. IsNamed x × IsFound totals x) (select mark totals)
          (All-first (λ x. IsNamed x × IsFound totals x) (λ x. mark x ≡ true) (select mark totals)
            (All-select (λ x. IsNamed x × IsFound totals x) mark totals both)))
