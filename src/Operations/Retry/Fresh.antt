-- ===== src/Operations/Retry/Fresh.antt =====
-- The manual retries of backend/poi_admin/operations/service.py on rows that are, when they are
-- written, as they were read.
use poi_hub.Base.{
  ℕ, String, ◌≡◌, refl, ap, ◌∙◌, Bool, Option, none, some, List, [], ◌∷◌, arith, Bool-cases,
  Option-cases, inl, inr, if◌then◌else◌, true, false,
}
use poi_hub.Base.Result.{Result, ok, err}
use poi_hub.Base.Rows.{find, write}
use poi_hub.Operations.Model.{Operation, OperationStatus, is_retryable}
use poi_hub.Operations.Enqueue.{OperationError}
use poi_hub.Operations.Retry.{
  is_row, get, cleared, assigned, flush, flush_batch, BatchRetryResult, manual_retry, retry_one,
}

-- what a retry resets in a row that it has read
unfoldable pub requeue : ℕ → Operation → Operation
requeue now op = record op {
  status = OperationStatus.queued;
  next_attempt_at = now;
  error_code = none;
  error_message = none;
  completed_at = none;
  worker_id = none;
  attempt_count = 0;
  updated_at = now;
}

unfoldable pub requeue_batch : ℕ → Operation → Operation
unfolding requeue
requeue_batch now op = record (requeue now op) { lease_expires_at = none }

cleared-same : {A : Type 0} (x : Option A) → cleared x x ≡ none
unfolding cleared
cleared-same none = refl
cleared-same (some a) = refl

assigned-same : (new x : ℕ) → assigned new x x ≡ new
unfolding assigned
assigned-same new x = ground (arith)

pub flush-same : (now : ℕ) (op : Operation) → flush op now op ≡ requeue now op
unfolding flush requeue
flush-same now op = rw (
  assigned-same now op.next_attempt_at,
  assigned-same 0 op.attempt_count,
  cleared-same op.error_code,
  cleared-same op.error_message,
  cleared-same op.completed_at,
  cleared-same op.worker_id,
)

pub flush_batch-same : (now : ℕ) (op : Operation) → flush_batch op now op ≡ requeue_batch now op
unfolding flush_batch requeue_batch
flush_batch-same now op =
    ap
      (λ (x : Operation). record x {
        lease_expires_at = cleared op.lease_expires_at op.lease_expires_at;
      })
      (flush-same now op)
    ∙ rw (cleared-same op.lease_expires_at) refl

-- Of a changed function only its value at the row that is found counts.
write_found :
    (p : Operation → Bool) (f g : Operation → Operation) (t : List Operation) (x : Operation)
    → find p t ≡ some x
    → f x ≡ g x
    → write p f t ≡ write p g t
write_found p f g [] x found same = refl
write_found p f g (y ∷ t) x found same = elim (Bool-cases (p y)) [
  | inl hit ↦ let e : y ≡ x = ground arith in rw hit (ap (λ z. z ∷ t) (rw e same))
  | inr miss ↦ rw miss (ap (λ z. y ∷ z) (write_found p f g t x (ground arith) same))
]

-- the retries as they are then
unfoldable pub manual_retry_now :
    String → String → ℕ → List Operation → Result OperationError (Operation × List Operation)
unfolding get requeue
manual_retry_now tenant i now table = elim (get tenant i table) [
  | none ↦ err (OperationError.value_error "operation not found")
  | some op ↦
      if is_retryable op.status
      then ok (requeue now op, write (is_row tenant i) (requeue now) table)
      else err (OperationError.value_error "operation is not retryable")
]

unfoldable pub retry_now : String → ℕ → String → List Operation → BatchRetryResult × List Operation
unfolding get requeue_batch
retry_now tenant now i table = elim (get tenant i table) [
  | none ↦
      (record { operation_id = i; accepted = false; reason = some "operation_not_found" }, table)
  | some op ↦
      if is_retryable op.status
      then (
        record { operation_id = i; accepted = true; reason = none },
        write (is_row tenant i) (requeue_batch now) table,
      )
      else (
        record { operation_id = i; accepted = false; reason = some "operation_not_retryable" },
        table,
      )
]

pub manual_retry_fresh :
    (tenant i : String) (now : ℕ) (seen t : List Operation)
    → get tenant i seen ≡ get tenant i t
    → manual_retry tenant i now seen t ≡ manual_retry_now tenant i now t
unfolding manual_retry manual_retry_now get
manual_retry_fresh tenant i now seen t same = elim (Option-cases (find (is_row tenant i) t)) [
  | inl missing ↦
      let unread : find (is_row tenant i) seen ≡ none = cc (same, missing) in
      rw (unread, manual_retry) (rw (missing, manual_retry_now) refl)
  | inr (x, found) ↦
      let read : find (is_row tenant i) seen ≡ some x = cc (same, found) in
      rw (read, manual_retry)
        (rw (found, manual_retry_now)
          (rw (
            flush-same now x,
            write_found (is_row tenant i) (flush x now) (requeue now) t x found (flush-same now x),
          )))
]

pub retry_one_fresh :
    (tenant : String) (now : ℕ) (i : String) (seen t : List Operation)
    → get tenant i seen ≡ get tenant i t
    → retry_one tenant now seen i t ≡ retry_now tenant now i t
unfolding retry_one retry_now get
retry_one_fresh tenant now i seen t same = elim (Option-cases (find (is_row tenant i) t)) [
  | inl missing ↦
      let unread : find (is_row tenant i) seen ≡ none = cc (same, missing) in
      rw (unread, retry_one) (rw (missing, retry_now) refl)
  | inr (x, found) ↦
      let read : find (is_row tenant i) seen ≡ some x = cc (same, found) in
      rw (read, retry_one)
        (rw (found, retry_now)
          (rw (
            write_found (is_row tenant i) (flush_batch x now) (requeue_batch now) t x found
              (flush_batch-same now x))))
]
