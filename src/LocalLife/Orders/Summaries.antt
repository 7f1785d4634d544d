-- ===== src/LocalLife/Orders/Summaries.antt =====
-- What `_safe_summary` and `mask_customer_reference` of backend/poi_admin/local_life/orders.py leave.
use poi_hub.Base.{
  ℕ, zero, suc, ◌-◌, ◌<◌, String, ◌≡◌, refl, Bool, true, false, Option, none, some, List, [], ◌∷◌,
  ◌||◌, ◌⊎◌, ◌==◌, ◌∙◌, sym, leb, arith, eq_iff, eq_refl, Bool-cases, inl, inr, ap,
}
use poi_hub.Base.Text.{strip_text, text_length, drop_text, concat}
use poi_hub.Base.Rows.{any}
use poi_hub.Base.Json.{Json, str, Fields, end, field, get}
use poi_hub.Connections.Crypto.{is_sensitive, redact_secrets, redact_fields}
use poi_hub.LocalLife.Orders.Model.{
  summary_keys, mask_text, or_null, mask_customer_reference, summarized, safe_summary,
}

-- What may be shown of a reference to a customer: nothing of a blank one, four stars for at most four
-- characters, and else four stars and its last four.
abbrev pub Masks : String → Option String → Type 0
Masks s shown =
    ((strip_text s ≡ "") × (shown ≡ none))
    ⊎ (((strip_text s == "" ≡ false)
          × (leb (text_length (strip_text s)) 4 ≡ true)
          × (shown ≡ some "****"))
        ⊎ ((hidden : String) × (t : String) × (strip_text s ≡ concat hidden t)
            × (text_length t ≡ 4)
            × (0 < text_length hidden)
            × (shown ≡ some (concat "****" t))))

pub text_length-drop_text : (n : ℕ) (s : String) → text_length (drop_text n s) ≡ text_length s - n
unfolding drop_text
text_length-drop_text zero s = omega arith
text_length-drop_text (suc n) String.[] = omega arith
text_length-drop_text (suc n) (String.◌∷◌ c s) = ground (arith, text_length-drop_text n s)

-- A text is what `drop_text` takes from it, and what is left.
pub drop_text-parts :
    (n : ℕ) (s : String)
    → leb n (text_length s) ≡ true
    → (p : String) × (s ≡ concat p (drop_text n s)) × (text_length p ≡ n)
unfolding drop_text concat
drop_text-parts zero s h = (String.[], refl, refl)
drop_text-parts (suc n) String.[] h = absurd (ground arith)
drop_text-parts (suc n) (String.◌∷◌ c s) h =
    let (p, parts, long) = drop_text-parts n s (ground arith) in
    (String.◌∷◌ c p, ap (λ t. String.◌∷◌ c t) parts, ground arith)

-- the keys that a summary keeps
abbrev pub shown_keys : List String
shown_keys =
    "status" ∷ "total_amount" ∷ "paid_amount" ∷ "currency" ∷ "customer_reference" ∷ "customer_ref"
    ∷ "type" ∷ "refund_amount" ∷ "updated_at" ∷ "created_at" ∷ []

abbrev pub is_shown : String → Bool
is_shown k = any (λ a. a == k) shown_keys

abbrev pub is_reference : String → Bool
is_reference k = k == "customer_reference" || k == "customer_ref"

get-here :
    (k j : String) (w v : Json) (d : Fields) → j == k ≡ true → get k (field j w d) ≡ some v → w ≡ v
get-here k j w v d same there = ground arith

get-next : (k j : String) (w : Json) (d : Fields) → j == k ≡ false → get k (field j w d) ≡ get k d
get-next k j w d other = rw other refl

module _ (show : Json → String) where
  get-summarized_dropped :
      (k : String) (d : Fields) → is_shown k ≡ false → get k (summarized show d) ≡ none
  unfolding summarized summary_keys
  get-summarized_dropped k end h = refl
  get-summarized_dropped k (field j v d) h = elim (Bool-cases (j == k)) [
    | inl same ↦ rw ((eq_iff j k).0 same, h) (get-summarized_dropped k d h)
    | inr other ↦ elim (Bool-cases (is_shown j)) [
      | inr dropped ↦ rw dropped (get-summarized_dropped k d h)
      | inl kept ↦ elim (Bool-cases (is_reference j)) [
        | inl ref ↦ rw (kept, ref, other) (get-summarized_dropped k d h)
        | inr unref ↦ rw (kept, unref, other) (get-summarized_dropped k d h)
      ]
    ]
  ]

  -- Nothing else of an answer is in its summary.
  pub get-safe_summary_dropped :
      (k : String) (raw : Fields) → is_shown k ≡ false → get k (safe_summary show raw) ≡ none
  unfolding safe_summary
  get-safe_summary_dropped k raw h = get-summarized_dropped k (redact_fields raw) h

  get-summarized_masked :
      (k : String) (d : Fields) (v : Json)
      → is_shown k ≡ true
      → is_reference k ≡ true
      → get k d ≡ some v
      → get k (summarized show d) ≡ some (or_null (mask_customer_reference show (some v)))
  unfolding summarized summary_keys
  get-summarized_masked k end v shown ref there = absurd (ground arith)
  get-summarized_masked k (field j w d) v shown ref there = elim (Bool-cases (j == k)) [
    | inl same ↦
        let e : w ≡ v = get-here k j w v d same there in
        rw ((eq_iff j k).0 same, shown, ref, eq_refl k, e) refl
    | inr other ↦
        let rest : get k d ≡ some v = sym (get-next k j w d other) ∙ there in
        elim (Bool-cases (is_shown j)) [
          | inr dropped ↦ rw dropped (get-summarized_masked k d v shown ref rest)
          | inl kept ↦ elim (Bool-cases (is_reference j)) [
            | inl also ↦ rw (kept, also, other) (get-summarized_masked k d v shown ref rest)
            | inr unref ↦ rw (kept, unref, other) (get-summarized_masked k d v shown ref rest)
          ]
        ]
  ]

  get-redacted_text :
      (k : String) (raw : Fields) (s : String)
      → is_sensitive k ≡ false
      → get k raw ≡ some (str s)
      → get k (redact_fields raw) ≡ some (str s)
  unfolding redact_secrets
  get-redacted_text k end s plain there = absurd (ground arith)
  get-redacted_text k (field j v d) s plain there = elim (Bool-cases (j == k)) [
    | inl same ↦ let e : v ≡ str s = ground arith in rw (same, (eq_iff j k).0 same, plain, e) refl
    | inr other ↦ rw other (get-redacted_text k d s plain (ground arith))
  ]

  -- A reference to a customer is masked in a summary.
  pub get-safe_summary_masked :
      (k : String) (raw : Fields) (s : String)
      → is_reference k ≡ true
      → get k raw ≡ some (str s)
      → get k (safe_summary show raw) ≡ some (or_null (mask_text (show (str s))))
  unfolding safe_summary is_sensitive mask_customer_reference
  get-safe_summary_masked k raw s ref there = elim (Bool-cases (k == "customer_reference")) [
    | inl first ↦
        let e : k ≡ "customer_reference" = (eq_iff k "customer_reference").0 first in
        get-summarized_masked k (redact_fields raw) (str s) (rw e refl) ref
          (get-redacted_text k raw s (rw e refl) there)
    | inr other ↦
        let e : k ≡ "customer_ref" = (eq_iff k "customer_ref").0 (ground arith) in
        get-summarized_masked k (redact_fields raw) (str s) (rw e refl) ref
          (get-redacted_text k raw s (rw e refl) there)
  ]
