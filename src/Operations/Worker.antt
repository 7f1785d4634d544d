-- ===== src/Operations/Worker.antt =====
-- `OperationWorker.run_once` of backend/poi_admin/operations/worker.py, for one operation of the queue.
pub mod Turns
use poi_hub.Base.{
  ℕ, String, ◌+◌, Bool, true, false, Option, none, some, List, [], ◌∷◌, ◌==◌, if◌then◌else◌,
}
use poi_hub.Base.Rows.{find}
use poi_hub.Base.Result.{Result, ok, err}
use poi_hub.Base.Json.{Fields}
use poi_hub.Operations.Model.{Operation, has_id}
use poi_hub.Operations.Errors.{Failure, other, classify_error}
use poi_hub.Operations.Lease.{claim_from}
use poi_hub.Operations.Outcome.{Report, mark_succeeded, mark_failed}

-- the queue, and the rest of the database, which the handlers work on
pub record World (W : Type 0) : Type 0 where
  pub operations : List Operation
  pub rest : W

-- How the call of a handler ends: it answers or raises and the session can be used; or a statement of it
-- has failed in the database and was not rolled back, so that the next statement of the session raises,
-- and the database has what was committed before.
pub data Called (W : Type 0) : Type 0 where
  answered : Result Failure (Option Fields) → World W → Called W
  broken : World W → Called W

-- the database as the call leaves it
abbrev pub left_by : {W : Type 0} → Called W → World W
left_by (answered r s) = s
left_by (broken s) = s

-- A handler is given the operation with its payload decrypted, and the time.
abbrev pub Handler : Type 0 → Type 0
Handler W = Operation → ℕ → World W → Called W

-- what the worker is made with: its name, the time of its lease in microseconds, the decryption of
-- payloads under the key of the settings (where none is its exception; none without settings), the
-- handlers, and the time and the jitter that it draws
pub record Worker (W : Type 0) : Type 0 where
  pub worker_id : String
  pub lease : ℕ
  pub opened : Option (String → Option Fields)
  pub handlers : String → Option (Handler W)

-- `operation.payload`, or what is decrypted in its place
unfoldable pub open_payload : Option (String → Option Fields) → Operation → Option Fields
open_payload opened op = elim op.encrypted_payload [
  | none ↦ some op.payload
  | some s ↦ if s == "" then some op.payload else elim opened [ none ↦ none | some f ↦ f s ]
]

abbrev pub report : Failure → Report
unfolding classify_error
report e = record {
  code = (classify_error e).code;
  message = (classify_error e).message;
  retryable = (classify_error e).retryable;
}

abbrev pub no_handler : Report
no_handler = record { code = "handler_not_found"; message = "未配置操作处理器"; retryable = false }

module _ {W : Type 0} (w : Worker W) (jitter now : ℕ) where
  -- what the handler answers, with the exception of the decryption as its own
  unfoldable pub call_handler : Handler W → Operation → World W → Called W
  unfolding open_payload
  call_handler h op s = elim (open_payload w.opened op) [
    | none ↦ answered (err other) s
    | some payload ↦ h (record op { payload = payload }) now s
  ]

  -- the report of what the handler answered
  unfoldable pub report_result :
      Operation → Result Failure (Option Fields) → List Operation → List Operation
  unfolding mark_succeeded mark_failed classify_error
  report_result op (ok response) table = mark_succeeded op response (some w.worker_id) now table
  report_result op (err e) table = mark_failed op (report e) (some w.worker_id) jitter now table

  -- The row that the turn answers is read again, unless there was no handler. On a broken session the
  -- report raises too, and the turn with it.
  unfoldable pub after_call : Operation → Called W → Result Failure (Option Operation) × World W
  unfolding report_result
  after_call op (answered r s) =
      let table = report_result op r s.operations in
      (ok (find (has_id op.id) table), record s { operations = table })
  after_call op (broken s) = (err other, s)

  unfoldable pub run_operation : Operation → World W → Result Failure (Option Operation) × World W
  unfolding call_handler after_call mark_failed
  run_operation op s = elim (w.handlers op.command_type) [
    | none ↦ (
      ok (some op),
      record s {
        operations = mark_failed op no_handler (some w.worker_id) jitter now s.operations;
      },
    )
    | some h ↦ after_call op (call_handler h op s)
  ]

  -- `seen` is the queue as the query of the claim reads it.
  unfoldable pub run_once : List Operation → World W → Result Failure (Option Operation) × World W
  unfolding claim_from run_operation
  run_once seen s = elim (claim_from w.worker_id w.lease now seen s.operations).0 [
    | none ↦ (ok none, s)
    | some op ↦
        run_operation op
          (record s { operations = (claim_from w.worker_id w.lease now seen s.operations).1 })
  ]
