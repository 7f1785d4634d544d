-- ===== src/Operations/Steps/Valid.antt =====
-- The consistency of the columns of an operation, on every history of the queue.
use poi_hub.Base.{
  ℕ, sym, ◌∙◌, String, ◌≡◌, Bool, true, false, Option, some, List, [], ◌∷◌, arith, is_some, not,
  and_right, Bool-cases, Option-cases, inl, inr, ◌&&◌,
}
use poi_hub.Base.Json.{Fields}
use poi_hub.Base.Result.{ok}
use poi_hub.Base.Rows.{All, write, find, any}
use poi_hub.Base.Rows.Laws.{All-update, All-write, All-append}
use poi_hub.Operations.Model.{Operation, OperationStatus, is_running, is_retryable}
use poi_hub.Operations.Enqueue.{Connection, EnqueueRequest, new_operation, enqueue}
use poi_hub.Operations.Enqueue.Idempotent.{enqueue_adds}
use poi_hub.Operations.Lease.{
  is_claimable, is_target, candidate, take_lease, claim_row, claim_from, is_held, renew_lease,
}
use poi_hub.Operations.Outcome.{Report, owner, is_owned, succeed, fail, mark_succeeded, mark_failed}
use poi_hub.Operations.Retry.{is_row, get, unique_ids}
use poi_hub.Operations.Retry.Fresh.{
  requeue, requeue_batch, manual_retry_now, retry_now, manual_retry_fresh,
}
use poi_hub.Operations.Retry.Batch.{retry_each_now, manual_retry_many_fresh}
use poi_hub.Operations.Steps.{
  Step, enqueued, claimed, renewed, marked_succeeded, marked_failed, retried, batch_retried, Reach,
  here, next, IsTimely, AllTimely,
}

abbrev is_final : OperationStatus → Bool
is_final OperationStatus.succeeded = true
is_final OperationStatus.failed = true
is_final _ = false

-- A lease is there exactly while the operation runs, and then it has a worker; the time of
-- completion is there exactly when it has succeeded or failed.
pub record IsValid (op : Operation) : Type 0 where
  pub leased : is_some op.lease_expires_at ≡ is_running op.status
  pub held : is_running op.status && not (is_some op.worker_id) ≡ false
  pub completed : is_some op.completed_at ≡ is_final op.status

take_lease-IsValid :
    (worker : String) (lease now : ℕ) (op : Operation)
    → is_claimable now op ≡ true
    → IsValid op
    → IsValid (take_lease worker lease now op)
unfolding take_lease is_claimable
take_lease-IsValid worker lease now op t v = ground arith

succeed-IsValid :
    (response : Option Fields) (now : ℕ) (op : Operation)
    → IsValid op
    → IsValid (succeed response now op)
unfolding succeed
succeed-IsValid response now op v = ground arith

fail-IsValid :
    (operation : Operation) (report : Report) (jitter now : ℕ) (op : Operation)
    → IsValid op
    → IsValid (fail operation report jitter now op)
unfolding fail
fail-IsValid operation report jitter now op v = ground arith

requeue-IsValid :
    (now : ℕ) (op : Operation)
    → is_retryable op.status ≡ true
    → IsValid op
    → IsValid (requeue now op)
unfolding requeue
requeue-IsValid now op t v = ground arith

requeue_batch-IsValid : (now : ℕ) (op : Operation) → IsValid op → IsValid (requeue_batch now op)
unfolding requeue_batch
requeue_batch-IsValid now op v = ground arith

claim_row-All :
    (worker : String) (lease now : ℕ) (i : String) (t : List Operation)
    → All IsValid t
    → All IsValid (claim_row worker lease now i t).1
unfolding claim_row is_target
claim_row-All worker lease now i t v = elim (Bool-cases (any (is_target i now) t)) [
  | inl hit ↦ rw hit (
      All-update IsValid (is_target i now) (take_lease worker lease now)
        (λ op p. take_lease-IsValid worker lease now op (and_right _ _ p)) t v)
  | inr miss ↦ rw miss v
]

claim_from-All :
    (worker : String) (lease now : ℕ) (seen t : List Operation)
    → All IsValid t
    → All IsValid (claim_from worker lease now seen t).1
unfolding claim_from
claim_from-All worker lease now seen t v = elim (Option-cases (candidate now seen)) [
  | inl idle ↦ rw (idle, claim_from) v
  | inr (op, found) ↦ rw (found, claim_from) (claim_row-All worker lease now op.id t v)
]

renew_lease-All :
    (i worker : String) (lease now : ℕ) (t : List Operation)
    → All IsValid t
    → All IsValid (renew_lease i worker lease now t).1
unfolding renew_lease
renew_lease-All i worker lease now t v =
    All-update IsValid (is_held i worker) _ (λ op p w. ground arith) t v

mark_succeeded-All :
    (operation : Operation) (response : Option Fields) (worker : Option String) (now : ℕ)
    (t : List Operation)
    → All IsValid t
    → All IsValid (mark_succeeded operation response worker now t)
unfolding mark_succeeded
mark_succeeded-All operation response worker now t v =
    elim (Option-cases (owner worker operation)) [
      | inl unowned ↦ rw (unowned, mark_succeeded) v
      | inr (own, e) ↦
          rw (e, mark_succeeded)
            (All-update IsValid (is_owned operation worker (some own)) _
              (λ op p w. succeed-IsValid response now op w) t v)
    ]

mark_failed-All :
    (operation : Operation) (report : Report) (worker : Option String) (jitter now : ℕ)
    (t : List Operation)
    → All IsValid t
    → All IsValid (mark_failed operation report worker jitter now t)
unfolding mark_failed
mark_failed-All operation report worker jitter now t v =
    elim (Option-cases (owner worker operation)) [
      | inl unowned ↦ rw (unowned, mark_failed) v
      | inr (own, e) ↦
          rw (e, mark_failed)
            (All-update IsValid (is_owned operation worker (some own)) _
              (λ op p w. fail-IsValid operation report jitter now op w) t v)
    ]

manual_retry_now-All :
    (tenant i : String) (now : ℕ) (t : List Operation) (op : Operation) (u : List Operation)
    → manual_retry_now tenant i now t ≡ ok (op, u)
    → All IsValid t
    → All IsValid u
unfolding manual_retry_now get
manual_retry_now-All tenant i now t op u e v = elim (Option-cases (find (is_row tenant i) t)) [
  | inl missing ↦ absurd (ground arith)
  | inr (x, found) ↦
      let retryable : is_retryable x.status ≡ true = ground arith in
      let written : write (is_row tenant i) (requeue now) t ≡ u = ground arith in
      rw (← written) (
        All-write IsValid (is_row tenant i) (requeue now) t
          (λ y e w. requeue-IsValid now y (ground arith) w) v)
]

retry_now-All :
    (tenant : String) (now : ℕ) (i : String) (t : List Operation)
    → All IsValid t
    → All IsValid (retry_now tenant now i t).1
unfolding retry_now get
retry_now-All tenant now i t v = elim (Option-cases (find (is_row tenant i) t)) [
  | inl missing ↦ rw (missing, retry_now) v
  | inr (x, found) ↦ elim (Bool-cases (is_retryable x.status)) [
    | inl yes' ↦
        rw (found, retry_now)
          (rw yes' (
            All-write IsValid (is_row tenant i) (requeue_batch now) t
              (λ y e w. requeue_batch-IsValid now y w) v))
    | inr no' ↦ rw (found, retry_now) (rw no' v)
  ]
]

retry_each_now-All :
    (tenant : String) (now : ℕ) (ids : List String) (t : List Operation)
    → All IsValid t
    → All IsValid (retry_each_now tenant now ids t).1
unfolding retry_each_now
retry_each_now-All tenant now [] t v = v
retry_each_now-All tenant now (i ∷ is) t v =
    retry_each_now-All tenant now is (retry_now tenant now i t).1 (retry_now-All tenant now i t v)

module _ (sha256 : String → String) (seal : Option (Fields → String))
    (connections : List Connection) where
  new_operation-IsValid : (r : EnqueueRequest) → IsValid (new_operation sha256 seal r)
  unfolding new_operation
  new_operation-IsValid r = ground arith

  enqueue-All :
      (r : EnqueueRequest) (seen t : List Operation) (op : Operation) (u : List Operation)
      → enqueue sha256 seal connections r seen t ≡ ok (op, u)
      → All IsValid t
      → All IsValid u
  enqueue-All r seen t op u e v = elim (enqueue_adds sha256 seal connections r seen t e) [
    | inl same ↦ rw same v
    | inr new ↦ rw new.0 (All-append IsValid t _ v (new_operation-IsValid r))
  ]

  Step-All :
      {t u : List Operation} (step : Step sha256 seal connections t u)
      → IsTimely sha256 seal connections step
      → All IsValid t
      → All IsValid u
  Step-All (enqueued r seen t op u e) timely = enqueue-All r seen t op u e
  Step-All (claimed worker lease now seen t) timely = claim_from-All worker lease now seen t
  Step-All (renewed i worker lease now t) timely = renew_lease-All i worker lease now t
  Step-All (marked_succeeded operation response worker now t) timely =
      mark_succeeded-All operation response worker now t
  Step-All (marked_failed operation report worker jitter now t) timely =
      mark_failed-All operation report worker jitter now t
  Step-All (retried tenant i now seen t op u e) timely =
      manual_retry_now-All tenant i now t op u
        (sym (manual_retry_fresh tenant i now seen t timely) ∙ e)
  Step-All (batch_retried tenant now ids seen t) timely =
      rw (manual_retry_many_fresh tenant now ids seen t timely)
        (retry_each_now-All tenant now (unique_ids ids) t)

  -- If the columns of every row agree (a lease exactly while running, a worker while running, a time
  -- of completion exactly when succeeded or failed), they do after any calls in any order, where every
  -- manual retry finds the rows that it writes as it has read them.
  pub Reach-All :
      {t u : List Operation}
      → All IsValid t
      → (r : Reach sha256 seal connections t u) → AllTimely sha256 seal connections r
      → All IsValid u
  Reach-All v here timely = v
  Reach-All v (next r step) timely = Step-All step timely.1 (Reach-All v r timely.0)
