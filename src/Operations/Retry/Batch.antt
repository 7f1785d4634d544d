-- ===== src/Operations/Retry/Batch.antt =====
-- The batch retry of backend/poi_admin/operations/service.py against the single one.
use poi_hub.Base.{
  ℕ, String, ◌≡◌, refl, ap, ap₂, ◌∙◌, Bool, true, false, Option, none, some, List, [], ◌∷◌, arith,
  eq_iff, eq_refl, sym, ◌==◌, Bool-cases, Option-cases, inl, inr, if◌then◌else◌,
}
use mathlib.Core.List.{map}
use poi_hub.Base.Rows.{find, any}
use poi_hub.Base.Rows.Laws.{find-write, find-write_apart, find-test, Distinct}
use poi_hub.Operations.Model.{Operation, is_retryable}
use poi_hub.Operations.Retry.{
  is_row, get, BatchRetryResult, drop_id, unique_ids, retry_each, manual_retry_many,
}
use poi_hub.Operations.Retry.Fresh.{requeue_batch, retry_now, retry_one_fresh}

-- The batch's ids are the request's, each once.
abbrev pub same_text : String → String → Bool
same_text a b = a == b

any-drop_id :
    (i j : String) (ids : List String)
    → any (same_text j) ids ≡ false
    → any (same_text j) (drop_id i ids) ≡ false
unfolding drop_id
any-drop_id i j [] h = refl
any-drop_id i j (k ∷ ids) h = ground (arith, any-drop_id i j ids)

drop_id-free : (i : String) (ids : List String) → any (same_text i) (drop_id i ids) ≡ false
unfolding drop_id
drop_id-free i [] = refl
drop_id-free i (k ∷ ids) = ground (arith, drop_id-free i ids, eq_iff k i, eq_iff i k)

drop_id-Distinct :
    (i : String) (ids : List String) → Distinct same_text ids → Distinct same_text (drop_id i ids)
unfolding drop_id
drop_id-Distinct i [] h = tt
drop_id-Distinct i (k ∷ ids) h = elim (Bool-cases (k == i)) [
  | inl same ↦ rw same (drop_id-Distinct i ids h.1)
  | inr other ↦ rw other (any-drop_id i k ids h.0, drop_id-Distinct i ids h.1)
]

unique_ids-Distinct : (ids : List String) → Distinct same_text (unique_ids ids)
unfolding unique_ids
unique_ids-Distinct [] = tt
unique_ids-Distinct (i ∷ ids) =
    (drop_id-free i (unique_ids ids), drop_id-Distinct i (unique_ids ids) (unique_ids-Distinct ids))

any-drop_other :
    (i j : String) (ids : List String)
    → j == i ≡ false
    → any (same_text j) (drop_id i ids) ≡ any (same_text j) ids
unfolding drop_id
any-drop_other i j [] h = refl
any-drop_other i j (k ∷ ids) h =
    ground (arith, any-drop_other i j ids h, eq_iff k i, eq_iff j k, eq_iff j i)

any-unique_ids :
    (j : String) (ids : List String) → any (same_text j) (unique_ids ids) ≡ any (same_text j) ids
unfolding unique_ids
any-unique_ids j [] = refl
any-unique_ids j (i ∷ ids) =
    ground (arith, any-drop_other i j (unique_ids ids), any-unique_ids j ids)

elsewhere :
    (i j : String) (ids : List String)
    → any (same_text i) ids ≡ false
    → any (same_text j) ids ≡ true
    → j == i ≡ false
elsewhere i j ids absent there = elim (Bool-cases (j == i)) [
  | inl same ↦ let e : j ≡ i = (eq_iff j i).0 same in absurd (ground arith)
  | inr other ↦ other
]

-- What the batch answers for one id, by the row that the table has for it.
unfoldable pub outcome : String → Option Operation → BatchRetryResult
outcome i none = record { operation_id = i; accepted = false; reason = some "operation_not_found" }
outcome i (some op) =
    if is_retryable op.status
    then record { operation_id = i; accepted = true; reason = none }
    else record { operation_id = i; accepted = false; reason = some "operation_not_retryable" }

-- the row of an id of the batch afterwards
unfoldable pub after : ℕ → Option Operation → Option Operation
after now none = none
after now (some op) = some (if is_retryable op.status then requeue_batch now op else op)

module _ (tenant : String) (now : ℕ) where
  retry_now-outcome :
      (i : String) (t : List Operation) → (retry_now tenant now i t).0 ≡ outcome i (get tenant i t)
  unfolding retry_now outcome
  retry_now-outcome i t = ground arith

  get-retry_now :
      (i j : String) (t : List Operation)
      → get tenant j (retry_now tenant now i t).1
        ≡ (if j == i then after now (get tenant j t) else get tenant j t)
  unfolding retry_now after get is_row requeue_batch
  get-retry_now i j t = elim (Option-cases (find (is_row tenant i) t)) [
    | inl missing ↦
        rw (missing, retry_now)
          (elim (Bool-cases (j == i)) [
            | inl same ↦ rw same (rw ((eq_iff j i).0 same, missing))
            | inr other ↦ rw other
          ])
    | inr (x, found) ↦ elim (Bool-cases (is_retryable x.status)) [
      | inl fit ↦
          rw (found, retry_now)
            (rw fit (elim (Bool-cases (j == i)) [
              | inl same ↦
                  let e : j ≡ i = (eq_iff j i).0 same in
                  rw (
                    same,
                    e,
                    find-write (is_row tenant i) (is_row tenant i) (requeue_batch now) (keep i)
                        (λ y h. h) t,
                    found,
                    find-test (is_row tenant i) t x found,
                    fit,
                  )
              | inr other ↦ rw other (
                  find-write_apart (is_row tenant j) (is_row tenant i) (requeue_batch now) (keep j)
                    (apart other) t)
            ]))
      | inr unfit ↦
          rw (found, retry_now)
            (rw unfit (elim (Bool-cases (j == i)) [
              | inl same ↦ rw (same, (eq_iff j i).0 same, found, unfit)
              | inr other ↦ rw other
            ]))
    ]
  ]
    where
      keep :
          (k : String) (y : Operation) → is_row tenant k (requeue_batch now y) ≡ is_row tenant k y
      keep k y = refl

      apart :
          j == i ≡ false → (y : Operation) → is_row tenant i y ≡ true → is_row tenant j y ≡ false
      apart other y h = ground (arith, eq_iff y.id i, eq_iff y.id j, eq_iff j i)

  -- The rows that the other ids find are as they were.
  same_rows :
      (i : String) (ids : List String) (t : List Operation)
      → any (same_text i) ids ≡ false
      → map (λ j. outcome j (get tenant j (retry_now tenant now i t).1)) ids
        ≡ map (λ j. outcome j (get tenant j t)) ids
  same_rows i [] t h = refl
  same_rows i (j ∷ ids) t h =
      let other : j == i ≡ false = ground (arith, eq_iff i j, eq_iff j i) in
      ap₂ ◌∷◌ (ap (outcome j) (get-retry_now i j t ∙ rw other)) (same_rows i ids t (ground arith))

  -- The batch on rows that are, when it is written, as it read them, id by id.
  unfoldable pub retry_each_now :
      List String → List Operation → List BatchRetryResult × List Operation
  unfolding retry_now
  retry_each_now [] table = ([], table)
  retry_each_now (i ∷ is) table =
      let (result, table') = retry_now tenant now i table in
      let (results, table'') = retry_each_now is table' in (result ∷ results, table'')

  still_same :
      (i j : String) (seen t : List Operation)
      → j == i ≡ false
      → get tenant j seen ≡ get tenant j t
      → get tenant j seen ≡ get tenant j (retry_now tenant now i t).1
  still_same i j seen t other same = same ∙ sym (get-retry_now i j t ∙ rw other refl)

  retry_each_fresh :
      (ids : List String) (seen t : List Operation)
      → Distinct same_text ids
      → ((j : String) → any (same_text j) ids ≡ true → get tenant j seen ≡ get tenant j t)
      → retry_each tenant now seen ids t ≡ retry_each_now ids t
  unfolding retry_each retry_each_now
  retry_each_fresh [] seen t d same = refl
  retry_each_fresh (i ∷ ids) seen t d same =
      let e = retry_one_fresh tenant now i seen t (same i (rw (eq_refl i) refl)) in
      let rest =
        retry_each_fresh ids seen (retry_now tenant now i t).1 d.1
          (λ j h. still_same i j seen t (elsewhere i j ids d.0 h) (same j (ground arith))) in
      rw (e, rest)

  pub manual_retry_many_fresh :
      (ids : List String) (seen t : List Operation)
      → ((j : String) → any (same_text j) ids ≡ true → get tenant j seen ≡ get tenant j t)
      → manual_retry_many tenant now ids seen t ≡ retry_each_now (unique_ids ids) t
  unfolding manual_retry_many
  manual_retry_many_fresh ids seen t same =
      retry_each_fresh (unique_ids ids) seen t (unique_ids-Distinct ids)
        (λ j h. same j (sym (any-unique_ids j ids) ∙ h))

  results :
      (ids : List String) (t : List Operation)
      → Distinct same_text ids
      → (retry_each_now ids t).0 ≡ map (λ i. outcome i (get tenant i t)) ids
  unfolding retry_each_now
  results [] t d = refl
  results (i ∷ ids) t d =
      ap₂ ◌∷◌ (retry_now-outcome i t)
        (results ids (retry_now tenant now i t).1 d.1 ∙ same_rows i ids t d.0)

  rows :
      (ids : List String) (t : List Operation) (j : String)
      → Distinct same_text ids
      → get tenant j (retry_each_now ids t).1
        ≡ (if any (same_text j) ids then after now (get tenant j t) else get tenant j t)
  unfolding retry_each_now
  rows [] t j d = refl
  rows (i ∷ ids) t j d =
      ground (arith, rows ids (retry_now tenant now i t).1 j d.1, get-retry_now i j t, eq_iff j i)

  -- A batch retry that is written to the table that it has read answers each id once, by the row that
  -- the table had for it before the batch, and afterwards a lookup finds that row queued anew if its id was in the batch and it had failed or
  -- waited for a retry; any other row is as it was.
  pub manual_retry_many_lem :
      (ids : List String) (t : List Operation)
      → Distinct same_text (unique_ids ids)
        × ((manual_retry_many tenant now ids t t).0
            ≡ map (λ i. outcome i (get tenant i t)) (unique_ids ids))
        × ((j : String)
            → get tenant j (manual_retry_many tenant now ids t t).1
              ≡ (if any (same_text j) ids then after now (get tenant j t) else get tenant j t))
  manual_retry_many_lem ids t = rw (manual_retry_many_fresh ids t t (λ j h. refl)) (
    unique_ids-Distinct ids,
    results (unique_ids ids) t (unique_ids-Distinct ids),
    λ j. rows (unique_ids ids) t j (unique_ids-Distinct ids) ∙ rw (any-unique_ids j ids),
  )
