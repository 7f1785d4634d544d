-- ===== src/Operations/Outcome/Reports.antt =====
-- The row of an operation after its holder reports a failure.
use poi_hub.Base.{
  ℕ, String, ◌+◌, ◌*◌, ◌≤◌, ◌≡◌, refl, eq_refl, ◌∙◌, Bool, true, false, none, some, List, arith,
  ◌==◌, ◌&&◌, ltb, Bool-cases, inl, inr, if◌then◌else◌,
}
use poi_hub.Base.Rows.{find}
use poi_hub.Base.Rows.Laws.{find-update, find-test}
use poi_hub.Base.Text.{prefix}
use poi_hub.Operations.Model.{Operation, OperationStatus, has_id}
use poi_hub.Operations.Errors.{second}
use poi_hub.Operations.Errors.Backoff.{backoff_bounds}
use poi_hub.Operations.Outcome.{Report, is_owned, fail, mark_failed}

abbrev pub may_retry : Operation → Report → Bool
may_retry operation report = report.retryable && ltb operation.attempt_count operation.max_attempts

-- the row after the report
pub record Reported (report : Report) (now : ℕ) (retry : Bool) (op x : Operation) : Type 0 where
  pub code : x.error_code ≡ some report.code
  pub message : x.error_message ≡ some (prefix 500 report.message)
  pub lease : x.lease_expires_at ≡ none
  pub attempts : x.attempt_count ≡ op.attempt_count
  pub status : x.status ≡ (if retry then OperationStatus.retry_wait else OperationStatus.failed)
  pub completed : x.completed_at ≡ (if retry then none else some now)
  pub next_attempt :
      if retry
      then (now + 5 * second ≤ x.next_attempt_at) × (x.next_attempt_at ≤ now + 3600 * second)
      else x.next_attempt_at ≡ op.next_attempt_at

fail-Reported :
    (operation : Operation) (report : Report) (jitter now : ℕ) (op : Operation)
    → Reported report now (may_retry operation report) op (fail operation report jitter now op)
unfolding fail
fail-Reported operation report jitter now op = elim (Bool-cases (may_retry operation report)) [
  | inl more ↦ rw more (record {
    code = refl;
    message = refl;
    lease = refl;
    attempts = refl;
    status = refl;
    completed = refl;
    next_attempt = omega (arith, backoff_bounds jitter operation.attempt_count);
  })
  | inr last ↦ rw last (record {
    code = refl;
    message = refl;
    lease = refl;
    attempts = refl;
    status = refl;
    completed = refl;
    next_attempt = refl;
  })
]

pub id-fail :
    (operation : Operation) (report : Report) (jitter now : ℕ) (x : Operation)
    → (fail operation report jitter now x).id ≡ x.id
unfolding fail
id-fail operation report jitter now x = ground arith

-- The holder, of a non-empty name, reports a failure of its running operation. Then the row has the
-- error, with a message of at most 500 characters, no lease and the same number of attempts. If the
-- error may be retried and attempts are left, it waits for a time between five seconds and an hour
-- from now; else it has failed, and is complete now.
pub mark_failed_reports :
    (operation : Operation) (report : Report) (w : String) (jitter now : ℕ) (t : List Operation)
    (op : Operation)
    → w == "" ≡ false
    → find (has_id operation.id) t ≡ some op
    → op.status ≡ OperationStatus.running
    → op.worker_id ≡ some w
    → (x : Operation) × (find
          (has_id operation.id)
          (mark_failed operation report (some w) jitter now t)
        ≡ some x)
      × Reported report now (may_retry operation report) op x
unfolding mark_failed is_owned
mark_failed_reports operation report w jitter now t op named found running held =
    let mine : is_owned operation (some w) (some w) op ≡ true =
      ground (arith, find-test (has_id operation.id) t op found, eq_refl w) in
    (
      fail operation report jitter now op,
      rw (named, mark_failed)
          (find-update (has_id operation.id) (is_owned operation (some w) (some w))
              (fail operation report jitter now) (λ x. rw (id-fail operation report jitter now x)) t
            ∙ rw found (rw mine)),
      fail-Reported operation report jitter now op,
    )
