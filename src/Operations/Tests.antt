-- ===== src/Operations/Tests.antt =====
-- Runs of the queue of backend/poi_admin/operations on concrete rows.
use poi_hub.Base.{
  ℕ, String, ◌≡◌, refl, ◌==◌, true, false, Option, none, some, List, [], ◌∷◌, arith, inl, inr, ◌⊎◌,
  if◌then◌else◌,
}
use poi_hub.Base.Rows.{All, find, any}
use poi_hub.Base.Rows.Laws.{Distinct}
use poi_hub.Base.Result.{ok, err}
use poi_hub.Base.Json.{Fields, end, field, str}
use poi_hub.Connections.Crypto.{is_sensitive, redact_secrets}
use poi_hub.Connections.Ports.{local_life}
use poi_hub.Operations.Model.{
  Operation, OperationStatus, queued, running, succeeded, failed, has_id,
}
use poi_hub.Operations.Enqueue.{Connection, EnqueueRequest, idempotency_conflict, enqueue}
use poi_hub.Operations.Enqueue.Idempotent.{enqueue-again, enqueue_conflict}
use poi_hub.Operations.Lease.{claim, claim_from, renew_lease}
use poi_hub.Operations.Lease.Claims.{same_id}
use poi_hub.Operations.Lease.Exclusion.{claim_excludes}
use poi_hub.Operations.Outcome.{Report, mark_succeeded, mark_failed}
use poi_hub.Operations.Outcome.Reports.{Reported, mark_failed_reports}
use poi_hub.Operations.Retry.{is_row, get, unique_ids, manual_retry, manual_retry_many}
use poi_hub.Operations.Retry.Stale.{manual_retry_stale}
use poi_hub.Operations.Retry.Batch.{outcome, after, manual_retry_many_lem}
use mathlib.Core.Option.{some-injective}
use poi_hub.Operations.Worker.{World, answered, Handler, Worker, run_once}
use poi_hub.Operations.Worker.Turns.{KeepsRows, Rests, IsBroken, run_once-Rests}
use poi_hub.Operations.Steps.{here, next, claimed}
use poi_hub.Operations.Steps.Valid.{IsValid, Reach-All}
use poi_hub.Operations.Steps.Final.{IsDone, Reach-IsDone}

-- A digest with no collision, and no encryption.
abbrev digest : String → String
digest s = s

abbrev no_seal : Option (Fields → String)
no_seal = none

abbrev connection : Connection
connection = record { id = "c"; tenant_id = "t"; capability = local_life }

abbrev request : EnqueueRequest
request = record {
  tenant_id = "t";
  command_type = "local_life.order.sync";
  idempotency_key = "key-1";
  payload = field "order_id" (str "o") (field "access_token" (str "x") end);
  connection_id = some "c";
  resource_ref = some "local_order:o";
  max_attempts = 8;
  new_id = "op-1";
  now = 100;
}

abbrev first : Operation
first = record {
  id = "op-1";
  tenant_id = "t";
  connection_id = some "c";
  command_type = "local_life.order.sync";
  idempotency_key = "key-1";
  resource_ref = some "local_order:o";
  status = queued;
  attempt_count = 0;
  max_attempts = 8;
  payload = field "order_id" (str "o") (field "access_token" (str "[REDACTED]") end);
  encrypted_payload = none;
  response_summary = none;
  error_code = none;
  error_message = none;
  worker_id = none;
  lease_expires_at = none;
  next_attempt_at = 100;
  created_at = 100;
  updated_at = 100;
  completed_at = none;
}

abbrev older : Operation
older = record first { id = "op-2"; idempotency_key = "key-2"; created_at = 50 }

abbrev table : List Operation
table = first ∷ older ∷ []

abbrev taken_row : Operation
taken_row = record older {
  status = running;
  worker_id = some "w";
  lease_expires_at = some 260;
  attempt_count = 1;
  updated_at = 200;
}

abbrev leased_table : List Operation
leased_table = first ∷ taken_row ∷ []

abbrev report : Report
report = record { code = "timeout"; message = "no answer"; retryable = true }

abbrev failed_row : Operation
failed_row = record first { status = failed; completed_at = some 150 }

abbrev done_row : Operation
done_row = record taken_row {
  status = succeeded;
  lease_expires_at = none;
  completed_at = some 210;
  updated_at = 210;
}

enqueue-first : enqueue digest no_seal (connection ∷ []) request [] [] ≡ ok (first, first ∷ [])
unfolding enqueue is_sensitive redact_secrets
enqueue-first = refl

claim-table : claim "w" 60 200 table ≡ (some taken_row, leased_table)
unfolding claim
claim-table = refl

enqueue-again_example :
    enqueue digest no_seal
      (connection ∷ [])
      (record request { new_id = "op-9"; now = 300 })
      []
      (first ∷ [])
    ≡ ok (first, first ∷ [])
enqueue-again_example =
    enqueue-again digest no_seal (connection ∷ []) request [] [] (refl, tt, (refl, tt, tt))
      (inl refl) enqueue-first "op-9" 300 [] (inl refl)

enqueue_conflict_example :
    enqueue digest no_seal
      (connection ∷ [])
      (record request {
        command_type = "local_life.order.other";
        payload = end;
        new_id = "op-9";
        now = 300;
      })
      (first ∷ [])
      (first ∷ [])
    ≡ err idempotency_conflict
enqueue_conflict_example =
    enqueue_conflict digest no_seal (connection ∷ []) request [] [] (refl, tt, (refl, tt, tt))
      (inl refl) enqueue-first "local_life.order.other" (some "local_order:o") end "op-9" 300
      (first ∷ []) refl (inr refl)

ids : Distinct same_id table
ids = (refl, (refl, tt))

claim_excludes_example :
    (find (has_id "op-2") (claim_from "v" 60 259 table leased_table).1 ≡ some taken_row)
    × (find (has_id "op-2") (renew_lease "op-2" "v" 60 259 leased_table).1 ≡ some taken_row)
    × (find (has_id "op-2") (mark_succeeded taken_row none (some "v") 259 leased_table)
        ≡ some taken_row)
    × (find (has_id "op-2") (mark_failed taken_row report (some "v") 0 259 leased_table)
        ≡ some taken_row)
claim_excludes_example =
    claim_excludes "w" 60 200 table taken_row leased_table "v" 60 259 0 table "op-2" taken_row none
      report ids claim-table (omega arith) refl refl

mark_failed_reports_example :
    (x : Operation) × (find
        (has_id "op-2")
        (mark_failed taken_row report (some "w") 0 250 leased_table)
      ≡ some x)
    × Reported report 250 true taken_row x
mark_failed_reports_example =
    mark_failed_reports taken_row report "w" 0 250 leased_table taken_row refl refl refl refl

manual_retry_many_lem_example :
    Distinct (λ (a b : String). a == b) ("op-1" ∷ "op-7" ∷ [])
    × ((manual_retry_many "t" 300
          ("op-1" ∷ "op-7" ∷ "op-1" ∷ [])
          (failed_row ∷ [])
          (failed_row ∷ [])).0
        ≡ record { operation_id = "op-1"; accepted = true; reason = none }
          ∷ record { operation_id = "op-7"; accepted = false; reason = some "operation_not_found" }
          ∷ [])
    × ((j : String)
        → get "t" j
            (manual_retry_many "t" 300
              ("op-1" ∷ "op-7" ∷ "op-1" ∷ [])
              (failed_row ∷ [])
              (failed_row ∷ [])).1
          ≡ (if any (λ i. j == i) ("op-1" ∷ "op-7" ∷ "op-1" ∷ [])
              then after 300 (get "t" j (failed_row ∷ []))
              else get "t" j (failed_row ∷ [])))
unfolding unique_ids outcome get is_row
manual_retry_many_lem_example =
    manual_retry_many_lem "t" 300 ("op-1" ∷ "op-7" ∷ "op-1" ∷ []) (failed_row ∷ [])

abbrev waiting_row : Operation
waiting_row = record taken_row {
  status = OperationStatus.retry_wait;
  attempt_count = 1;
  worker_id = none;
  lease_expires_at = none;
}

-- A worker claims the row between the read and the write of the retry.
manual_retry_stale_example :
    (x : Operation) × (u : List Operation) × (manual_retry "t" "op-2" 300
        (waiting_row ∷ [])
        (taken_row ∷ [])
      ≡ ok (x, u))
    × (get "t" "op-2" u ≡ some x)
    × (x.status ≡ OperationStatus.queued)
    × (x.lease_expires_at ≡ some 260)
    × (x.response_summary ≡ none)
unfolding get is_row
manual_retry_stale_example =
    manual_retry_stale "t" "op-2" 300 (waiting_row ∷ []) (taken_row ∷ []) waiting_row taken_row refl
      refl refl

Reach-All_example : All IsValid (claim_from "w" 60 200 table table).1
Reach-All_example =
    Reach-All digest no_seal (connection ∷ []) {t = table}
      (
        record { leased = refl; held = refl; completed = refl },
        (record { leased = refl; held = refl; completed = refl }, tt),
      )
      (next here (claimed "w" 60 200 table table)) (tt, tt)

Reach-IsDone_example :
    IsDone "op-2" done_row (claim_from "v" 60 900 leased_table (first ∷ done_row ∷ [])).1
Reach-IsDone_example =
    Reach-IsDone digest no_seal (connection ∷ []) "op-2" done_row {t = first ∷ done_row ∷ []}
      (refl, refl) (next here (claimed "v" 60 900 leased_table (first ∷ done_row ∷ []))) (tt, tt)

-- A handler that answers with an empty summary, for one command.
abbrev answers : String → Option (Handler Unit)
answers command = some (λ op now s. answered (ok none) s)

abbrev worker : Worker Unit
worker = record { worker_id = "w"; lease = 60; opened = none; handlers = answers }

abbrev world : World Unit
world = record { operations = table; rest = tt }

answers-KeepsRows : KeepsRows Unit answers
answers-KeepsRows command h op now s i row known found =
    let same : (λ (x : Operation) (n : ℕ) (y : World Unit). answered (ok none) y) ≡ h =
      some-injective _ h known in
    rw (← same) found

run_once-Rests_example :
    Rests "op-2" (run_once worker 0 200 table world).1.operations
    ⊎ IsBroken worker 0 200 taken_row
        (record world { operations = leased_table })
        (run_once worker 0 200 table world)
run_once-Rests_example =
    run_once-Rests worker 0 200 answers-KeepsRows refl world taken_row leased_table ids claim-table
