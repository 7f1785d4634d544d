-- ===== src/Operations/Lease.antt =====
-- `claim` and `renew_lease` of backend/poi_admin/operations/service.py.
pub mod Claims
pub mod Exclusion
use poi_hub.Base.{
  ℕ, String, ◌+◌, Bool, false, Option, none, some, List, [], ◌∷◌, ◌&&◌, ◌||◌, leb, ltb, opt_eq,
  if◌then◌else◌,
}
use poi_hub.Base.Rows.{find, select, update, any}
use poi_hub.Operations.Model.{Operation, OperationStatus, is_waiting, is_running, has_id}

abbrev pub expired : ℕ → Option ℕ → Bool
expired now none = false
expired now (some t) = leb t now

-- the condition of the query and of the update of `claim`
unfoldable pub is_claimable : ℕ → Operation → Bool
is_claimable now op =
    (is_waiting op.status && leb op.next_attempt_at now)
    || (is_running op.status && expired now op.lease_expires_at)

-- `ORDER BY created_at LIMIT 1`: of two rows created at one time the first in the table
unfoldable pub earliest : List Operation → Option Operation
earliest [] = none
earliest (op ∷ ops) = elim (earliest ops) [
  | none ↦ some op
  | some first ↦ if ltb first.created_at op.created_at then some first else some op
]

unfoldable pub candidate : ℕ → List Operation → Option Operation
unfolding is_claimable earliest
candidate now table = earliest (select (is_claimable now) table)

-- A claim takes the lease and counts the attempt.
unfoldable pub take_lease : String → ℕ → ℕ → Operation → Operation
take_lease worker lease now op = record op {
  status = OperationStatus.running;
  worker_id = some worker;
  lease_expires_at = some (now + lease);
  attempt_count = op.attempt_count + 1;
  updated_at = now;
}

unfoldable pub is_target : String → ℕ → Operation → Bool
is_target i now op = has_id i op && is_claimable now op

-- The conditional update: the row that it changed, and the table.
unfoldable pub claim_row :
    String → ℕ → ℕ → String → List Operation → Option Operation × List Operation
unfolding is_target is_claimable take_lease
claim_row worker lease now i table =
    if any (is_target i now) table
    then (
      find (has_id i) (update (is_target i now) (take_lease worker lease now) table),
      update (is_target i now) (take_lease worker lease now) table,
    )
    else (none, table)

-- `seen` is the table that the query reads, and `table` the one that the update runs on: another
-- worker may have claimed the row in between.
unfoldable pub claim_from :
    String → ℕ → ℕ → List Operation → List Operation → Option Operation × List Operation
unfolding candidate claim_row
claim_from worker lease now seen table = elim (candidate now seen) [
  | none ↦ (none, table)
  | some op ↦ claim_row worker lease now op.id table
]

-- with no other session in between
unfoldable pub claim : String → ℕ → ℕ → List Operation → Option Operation × List Operation
unfolding claim_from
claim worker lease now table = claim_from worker lease now table table

-- `status == RUNNING` and `worker_id == worker`, of the row with this id
unfoldable pub is_held : String → String → Operation → Bool
is_held i worker op = has_id i op && is_running op.status && opt_eq op.worker_id (some worker)

unfoldable pub renew_lease : String → String → ℕ → ℕ → List Operation → Bool × List Operation
unfolding is_held
renew_lease i worker lease now table = (
  any (is_held i worker) table,
  update (is_held i worker)
      (λ op. record op { lease_expires_at = some (now + lease); updated_at = now }) table,
)
