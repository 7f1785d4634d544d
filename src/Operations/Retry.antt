-- ===== src/Operations/Retry.antt =====
-- `manual_retry` and `manual_retry_many` of backend/poi_admin/operations/service.py.
pub mod Fresh
pub mod Batch
pub mod Stale
use poi_hub.Base.{
  ℕ, String, Bool, true, false, Option, none, some, List, [], ◌∷◌, ◌&&◌, ◌==◌, eqb, if◌then◌else◌,
}
use poi_hub.Base.Result.{Result, ok, err}
use poi_hub.Base.Rows.{find, write}
use poi_hub.Operations.Model.{Operation, OperationStatus, is_retryable, has_id}
use poi_hub.Operations.Enqueue.{OperationError}

unfoldable pub is_row : String → String → Operation → Bool
is_row tenant i op = op.tenant_id == tenant && has_id i op

-- `OperationService.get`
unfoldable pub get : String → String → List Operation → Option Operation
unfolding is_row
get tenant i table = find (is_row tenant i) table

-- A changed object is flushed as `UPDATE ... SET the changed attributes WHERE id`, and an attribute has
-- changed when its new value is not the one that was read: what becomes of a nullable column that is
-- reset, of a row that may no longer be as it was read.
unfoldable pub cleared : {A : Type 0} → Option A → Option A → Option A
cleared none current = current
cleared (some read) current = none

unfoldable pub assigned : ℕ → ℕ → ℕ → ℕ
assigned new read current = if eqb read new then current else new

-- what the flush of a retry writes: the object as read, the time, the row as it is
unfoldable pub flush : Operation → ℕ → Operation → Operation
unfolding cleared assigned
flush read now op = record op {
  status = OperationStatus.queued;
  next_attempt_at = assigned now read.next_attempt_at op.next_attempt_at;
  error_code = cleared read.error_code op.error_code;
  error_message = cleared read.error_message op.error_message;
  completed_at = cleared read.completed_at op.completed_at;
  worker_id = cleared read.worker_id op.worker_id;
  attempt_count = assigned 0 read.attempt_count op.attempt_count;
  updated_at = now;
}

-- `seen` is the table as the query reads it, `table` as the flush finds it, where another session may
-- have committed in between; the test on the tenant and the id stands for the primary key, since the
-- tenant of a row never changes. The answer is the row as written, which is read again. No call removes
-- a row; where one was gone the flush would raise, and here it is as if the row had not been found.
unfoldable pub manual_retry :
    String
    → String
    → ℕ
    → List Operation
    → List Operation
    → Result OperationError (Operation × List Operation)
unfolding get flush
manual_retry tenant i now seen table = elim (get tenant i seen) [
  | none ↦ err (OperationError.value_error "operation not found")
  | some read ↦
      if is_retryable read.status
      then elim (get tenant i table) [
        | none ↦ err (OperationError.value_error "operation not found")
        | some op ↦ ok (flush read now op, write (is_row tenant i) (flush read now) table)
      ]
      else err (OperationError.value_error "operation is not retryable")
]

-- `list(dict.fromkeys(ids))`
unfoldable pub drop_id : String → List String → List String
drop_id i [] = []
drop_id i (j ∷ js) = let rest = drop_id i js in if j == i then rest else j ∷ rest

unfoldable pub unique_ids : List String → List String
unfolding drop_id
unique_ids [] = []
unique_ids (i ∷ is) = i ∷ drop_id i (unique_ids is)

pub record BatchRetryResult : Type 0 where
  pub operation_id : String
  pub accepted : Bool
  pub reason : Option String

-- the batch resets the lease too
unfoldable pub flush_batch : Operation → ℕ → Operation → Operation
unfolding flush cleared
flush_batch read now op = record (flush read now op) {
  lease_expires_at = cleared read.lease_expires_at op.lease_expires_at;
}

unfoldable pub retry_one :
    String → ℕ → List Operation → String → List Operation → BatchRetryResult × List Operation
unfolding get flush_batch
retry_one tenant now seen i table = elim (get tenant i seen) [
  | none ↦
      (record { operation_id = i; accepted = false; reason = some "operation_not_found" }, table)
  | some read ↦
      if is_retryable read.status
      then (
        record { operation_id = i; accepted = true; reason = none },
        write (is_row tenant i) (flush_batch read now) table,
      )
      else (
        record { operation_id = i; accepted = false; reason = some "operation_not_retryable" },
        table,
      )
]

-- one query reads all rows, and one flush at the end writes them
unfoldable pub retry_each :
    String
    → ℕ
    → List Operation
    → List String
    → List Operation
    → List BatchRetryResult × List Operation
unfolding retry_one
retry_each tenant now seen [] table = ([], table)
retry_each tenant now seen (i ∷ is) table =
    let (result, table') = retry_one tenant now seen i table in
    let (results, table'') = retry_each tenant now seen is table' in (result ∷ results, table'')

unfoldable pub manual_retry_many :
    String
    → ℕ
    → List String
    → List Operation
    → List Operation
    → List BatchRetryResult × List Operation
unfolding unique_ids retry_each
manual_retry_many tenant now ids seen table = retry_each tenant now seen (unique_ids ids) table
