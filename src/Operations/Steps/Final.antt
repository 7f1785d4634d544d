-- ===== src/Operations/Steps/Final.antt =====
-- What the histories of the queue leave of an operation that has succeeded.
use poi_hub.Base.{
  ℕ, sym, String, ◌≡◌, refl, ◌∙◌, Bool, true, false, Option, none, some, List, [], ◌∷◌, arith,
  eq_iff, ◌==◌, Bool-cases, Option-cases, inl, inr, and_right,
}
use poi_hub.Base.Json.{Fields}
use poi_hub.Base.Result.{ok}
use poi_hub.Base.Rows.{find, update, write, any}
use poi_hub.Base.Rows.Laws.{find-update, find-write, find-write_apart, find-append, find_narrow}
use poi_hub.Operations.Model.{Operation, OperationStatus, has_id, is_retryable}
use poi_hub.Operations.Enqueue.{Connection, EnqueueRequest, new_operation, enqueue}
use poi_hub.Operations.Enqueue.Idempotent.{enqueue_adds}
use poi_hub.Operations.Lease.{
  is_claimable, is_target, candidate, take_lease, claim_row, claim_from, is_held, renew_lease,
}
use poi_hub.Operations.Outcome.Reports.{id-fail}
use poi_hub.Operations.Outcome.{Report, owner, is_owned, succeed, fail, mark_succeeded, mark_failed}
use poi_hub.Operations.Retry.{is_row, get, unique_ids}
use poi_hub.Operations.Retry.Fresh.{
  requeue, requeue_batch, manual_retry_now, retry_now, manual_retry_fresh,
}
use poi_hub.Operations.Retry.Batch.{retry_each_now, manual_retry_many_fresh}
use poi_hub.Operations.Steps.{
  Step, enqueued, claimed, renewed, marked_succeeded, marked_failed, retried, batch_retried, Reach,
  here, next, IsTimely, AllTimely,
}

-- The row that the id finds has succeeded, and is this one.
abbrev pub IsDone : String → Operation → List Operation → Type 0
IsDone i op t = (find (has_id i) t ≡ some op) × (op.status ≡ OperationStatus.succeeded)

-- An update by a test that no row with success passes leaves the row alone.
update-IsDone :
    (i : String) (op : Operation) (p : Operation → Bool) (f : Operation → Operation)
    (t : List Operation)
    → ((x : Operation) → (f x).id ≡ x.id)
    → p op ≡ false
    → IsDone i op t
    → IsDone i op (update p f t)
update-IsDone i op p f t keep miss d =
    (find-update (has_id i) p f (λ x. rw (keep x)) t ∙ rw d.0 (rw miss), d.1)

is_row→has_id :
    (tenant i j : String) (x : Operation) → i ≡ j → is_row tenant j x ≡ true → has_id i x ≡ true
unfolding is_row
is_row→has_id tenant i j x e h = rw e (and_right _ _ h)

is_row_apart :
    (tenant i j : String) (x : Operation)
    → i == j ≡ false
    → is_row tenant j x ≡ true
    → has_id i x ≡ false
unfolding is_row
is_row_apart tenant i j x e h = ground (arith, eq_iff x.id i, eq_iff x.id j, eq_iff i j)

-- So does a write to a row that was found and has not succeeded.
write-IsDone :
    (i : String) (op : Operation) (tenant j : String) (f : Operation → Operation)
    (t : List Operation) (x : Operation)
    → ((x : Operation) → (f x).id ≡ x.id)
    → find (is_row tenant j) t ≡ some x
    → is_retryable x.status ≡ true
    → IsDone i op t
    → IsDone i op (write (is_row tenant j) f t)
write-IsDone i op tenant j f t x keep found retryable d = elim (Bool-cases (i == j)) [
  | inl same ↦
      let e : i ≡ j = (eq_iff i j).0 same in
      let missed : is_row tenant j op ≡ false = elim (Bool-cases (is_row tenant j op)) [
        | inl hit ↦
            let first : find (is_row tenant j) t ≡ some op =
              find_narrow (has_id i) (is_row tenant j) (λ y. is_row→has_id tenant i j y e) t op d.0
                hit in
            absurd (ground arith)
        | inr miss ↦ miss
      ] in
      (
        find-write (has_id i) (is_row tenant j) f (λ y. rw (keep y))
              (λ y. is_row→has_id tenant i j y e) t
            ∙ rw d.0 (rw missed),
        d.1,
      )
  | inr differ ↦ (
    find-write_apart (has_id i) (is_row tenant j) f (λ y. rw (keep y))
          (λ y. is_row_apart tenant i j y differ) t
        ∙ d.0,
    d.1,
  )
]

claim_row-IsDone :
    (i : String) (op : Operation) (worker : String) (lease now : ℕ) (j : String)
    (t : List Operation)
    → IsDone i op t
    → IsDone i op (claim_row worker lease now j t).1
unfolding claim_row is_target is_claimable take_lease
claim_row-IsDone i op worker lease now j t d = elim (Bool-cases (any (is_target j now) t)) [
  | inl hit ↦ rw hit (
      update-IsDone i op (is_target j now) (take_lease worker lease now) t (λ x. refl)
        (ground arith) d)
  | inr miss ↦ rw miss d
]

claim_from-IsDone :
    (i : String) (op : Operation) (worker : String) (lease now : ℕ) (seen t : List Operation)
    → IsDone i op t
    → IsDone i op (claim_from worker lease now seen t).1
unfolding claim_from
claim_from-IsDone i op worker lease now seen t d = elim (Option-cases (candidate now seen)) [
  | inl idle ↦ rw (idle, claim_from) d
  | inr (c, found) ↦ rw (found, claim_from) (claim_row-IsDone i op worker lease now c.id t d)
]

is_owned-done :
    (operation : Operation) (worker own : Option String) (op : Operation)
    → op.status ≡ OperationStatus.succeeded
    → is_owned operation worker own op ≡ false
unfolding is_owned
is_owned-done operation none own op h = ground arith
is_owned-done operation (some w) own op h = ground arith

mark_succeeded-IsDone :
    (i : String) (op : Operation) (operation : Operation) (response : Option Fields)
    (worker : Option String) (now : ℕ) (t : List Operation)
    → IsDone i op t
    → IsDone i op (mark_succeeded operation response worker now t)
unfolding mark_succeeded succeed
mark_succeeded-IsDone i op operation response worker now t d =
    elim (Option-cases (owner worker operation)) [
      | inl unowned ↦ rw (unowned, mark_succeeded) d
      | inr (own, e) ↦
          rw (e, mark_succeeded)
            (update-IsDone i op (is_owned operation worker (some own)) (succeed response now) t
              (λ x. refl) (is_owned-done operation worker (some own) op d.1) d)
    ]

mark_failed-IsDone :
    (i : String) (op : Operation) (operation : Operation) (report : Report) (worker : Option String)
    (jitter now : ℕ) (t : List Operation)
    → IsDone i op t
    → IsDone i op (mark_failed operation report worker jitter now t)
unfolding mark_failed
mark_failed-IsDone i op operation report worker jitter now t d =
    elim (Option-cases (owner worker operation)) [
      | inl unowned ↦ rw (unowned, mark_failed) d
      | inr (own, e) ↦
          rw (e, mark_failed)
            (update-IsDone i op (is_owned operation worker (some own))
              (fail operation report jitter now) t (id-fail operation report jitter now)
              (is_owned-done operation worker (some own) op d.1) d)
    ]

manual_retry_now-IsDone :
    (i : String) (op : Operation) (tenant j : String) (now : ℕ) (t : List Operation) (x : Operation)
    (u : List Operation)
    → manual_retry_now tenant j now t ≡ ok (x, u)
    → IsDone i op t
    → IsDone i op u
unfolding manual_retry_now get requeue
manual_retry_now-IsDone i op tenant j now t x u e d =
    elim (Option-cases (find (is_row tenant j) t)) [
      | inl missing ↦ absurd (ground arith)
      | inr (y, found) ↦
          let retryable : is_retryable y.status ≡ true = ground arith in
          let written : write (is_row tenant j) (requeue now) t ≡ u = ground arith in
          rw (← written)
            (write-IsDone i op tenant j (requeue now) t y (λ z. refl) found retryable d)
    ]

retry_now-IsDone :
    (i : String) (op : Operation) (tenant : String) (now : ℕ) (j : String) (t : List Operation)
    → IsDone i op t
    → IsDone i op (retry_now tenant now j t).1
unfolding retry_now get requeue_batch
retry_now-IsDone i op tenant now j t d = elim (Option-cases (find (is_row tenant j) t)) [
  | inl missing ↦ rw (missing, retry_now) d
  | inr (x, found) ↦ elim (Bool-cases (is_retryable x.status)) [
    | inl yes' ↦
        rw (found, retry_now)
          (rw yes' (write-IsDone i op tenant j (requeue_batch now) t x (λ z. refl) found yes' d))
    | inr no' ↦ rw (found, retry_now) (rw no' d)
  ]
]

retry_each_now-IsDone :
    (i : String) (op : Operation) (tenant : String) (now : ℕ) (ids : List String)
    (t : List Operation)
    → IsDone i op t
    → IsDone i op (retry_each_now tenant now ids t).1
unfolding retry_each_now
retry_each_now-IsDone i op tenant now [] t d = d
retry_each_now-IsDone i op tenant now (j ∷ js) t d =
    retry_each_now-IsDone i op tenant now js (retry_now tenant now j t).1
      (retry_now-IsDone i op tenant now j t d)

module _ (sha256 : String → String) (seal : Option (Fields → String))
    (connections : List Connection) where
  enqueue-IsDone :
      (i : String) (op : Operation) (r : EnqueueRequest) (seen t : List Operation) (x : Operation)
      (u : List Operation)
      → enqueue sha256 seal connections r seen t ≡ ok (x, u)
      → IsDone i op t
      → IsDone i op u
  enqueue-IsDone i op r seen t x u e d = elim (enqueue_adds sha256 seal connections r seen t e) [
    | inl same ↦ rw same d
    | inr new ↦
        rw new.0 (rw (find-append (has_id i) t (new_operation sha256 seal r), d.0) refl, d.1)
  ]

  Step-IsDone :
      (i : String) (op : Operation) {t u : List Operation} (step : Step sha256 seal connections t u)
      → IsTimely sha256 seal connections step
      → IsDone i op t
      → IsDone i op u
  unfolding renew_lease is_held
  Step-IsDone i op (enqueued r seen t x u e) timely = enqueue-IsDone i op r seen t x u e
  Step-IsDone i op (claimed worker lease now seen t) timely =
      claim_from-IsDone i op worker lease now seen t
  Step-IsDone i op (renewed j worker lease now t) timely =
      λ d. update-IsDone i op (is_held j worker) _ t (λ x. refl) (ground arith) d
  Step-IsDone i op (marked_succeeded operation response worker now t) timely =
      mark_succeeded-IsDone i op operation response worker now t
  Step-IsDone i op (marked_failed operation report worker jitter now t) timely =
      mark_failed-IsDone i op operation report worker jitter now t
  Step-IsDone i op (retried tenant j now seen t x u e) timely =
      manual_retry_now-IsDone i op tenant j now t x u
        (sym (manual_retry_fresh tenant j now seen t timely) ∙ e)
  Step-IsDone i op (batch_retried tenant now ids seen t) timely =
      rw (manual_retry_many_fresh tenant now ids seen t timely)
        (retry_each_now-IsDone i op tenant now (unique_ids ids) t)

  -- A row that its id finds and that has succeeded is found unchanged after any calls of the service,
  -- in any order and by any workers, where every manual retry finds the rows that it writes as it has
  -- read them.
  pub Reach-IsDone :
      (i : String) (op : Operation) {t u : List Operation}
      → IsDone i op t
      → (r : Reach sha256 seal connections t u) → AllTimely sha256 seal connections r
      → IsDone i op u
  Reach-IsDone i op d here timely = d
  Reach-IsDone i op d (next r step) timely =
      Step-IsDone i op step timely.1 (Reach-IsDone i op d r timely.0)
