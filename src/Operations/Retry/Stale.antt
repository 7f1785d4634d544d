-- ===== src/Operations/Retry/Stale.antt =====
-- The manual retry of backend/poi_admin/operations/service.py on a row that has changed since it was
-- read.
use poi_hub.Base.{ℕ, String, ◌≡◌, refl, some, List, true, ◌∙◌}
use poi_hub.Base.Result.{ok}
use poi_hub.Base.Rows.{write}
use poi_hub.Base.Rows.Laws.{find-write, find-test}
use poi_hub.Operations.Model.{Operation, OperationStatus, is_retryable}
use poi_hub.Operations.Retry.{is_row, get, flush, manual_retry}

-- A manual retry that has read a failed or waiting row succeeds whatever the row has become before it
-- is written: it answers a queued row, which the table then has, and the lease of a worker that has
-- claimed it in the meantime and its summary are still on that row.
pub manual_retry_stale :
    (tenant i : String) (now : ℕ) (seen t : List Operation) (read op : Operation)
    → get tenant i seen ≡ some read
    → is_retryable read.status ≡ true
    → get tenant i t ≡ some op
    → (x : Operation) × (u : List Operation) × (manual_retry tenant i now seen t ≡ ok (x, u))
      × (get tenant i u ≡ some x)
      × (x.status ≡ OperationStatus.queued)
      × (x.lease_expires_at ≡ op.lease_expires_at)
      × (x.response_summary ≡ op.response_summary)
unfolding get is_row flush manual_retry
manual_retry_stale tenant i now seen t read op e fit found = (
  flush read now op,
  write (is_row tenant i) (flush read now) t,
  rw (e, manual_retry) (rw fit (rw found refl)),
  find-write (is_row tenant i) (is_row tenant i) (flush read now) (λ y. refl) (λ y h. h) t
      ∙ rw found (rw (find-test (is_row tenant i) t op found)),
  refl,
  refl,
  refl,
)
