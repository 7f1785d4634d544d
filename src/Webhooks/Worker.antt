-- ===== src/Webhooks/Worker.antt =====
-- `_claim_webhook`, `_mark_webhook_failed` and the heartbeat of a claimed event, of
-- backend/poi_admin/operations/worker.py.
pub mod Overwrite
use poi_hub.Base.{
  ℕ, String, ◌+◌, Bool, true, false, not, Option, none, some, List, [], ◌∷◌, ◌++◌, ◌&&◌, ◌||◌, ◌==◌,
  min, leb, ltb, eqb, opt_eq, is_some, if◌then◌else◌,
}
use Prim.Native.String.{compare}
use Prim.Native.Nat.{Ordering}
use poi_hub.Base.Rows.{find, any, select, update}
use poi_hub.Base.Text.{prefix}
use poi_hub.Operations.Errors.{backoff}
use poi_hub.Operations.Lease.{expired}
use poi_hub.Webhooks.Model.{
  Event, EventStatus, processing, dead_letter, retry_wait, is_waiting, is_processing, has_event_id,
}

-- the condition of the query and of the update
unfoldable pub is_claimable : ℕ → Event → Bool
is_claimable now e =
    (is_waiting e.status && leb e.next_attempt_at now)
    || (is_processing e.status && expired now e.lease_expires_at)

-- `ORDER BY received_at, id`
earlier : Event → Event → Bool
earlier a b =
    ltb a.received_at b.received_at
    || (eqb a.received_at b.received_at
        && elim (compare a.id b.id) [ Ordering.lt ↦ true | _ ↦ false ])

-- `LIMIT 1`
unfoldable pub earliest : List Event → Option Event
unfolding earlier
earliest [] = none
earliest (e ∷ es) = elim (earliest es) [
  | none ↦ some e
  | some first ↦ if earlier first e then some first else some e
]

unfoldable take_event : String → ℕ → ℕ → Event → Event
take_event worker lease now e = record e {
  status = processing;
  worker_id = some worker;
  lease_expires_at = some (now + lease);
  attempt_count = e.attempt_count + 1;
}

unfoldable is_event_target : String → ℕ → Event → Bool
unfolding is_claimable
is_event_target i now e = has_event_id i e && is_claimable now e

unfoldable claim_event_row : String → ℕ → ℕ → String → List Event → Option Event × List Event
unfolding is_event_target take_event
claim_event_row worker lease now i table =
    if any (is_event_target i now) table
    then (
      find (has_event_id i) (update (is_event_target i now) (take_event worker lease now) table),
      update (is_event_target i now) (take_event worker lease now) table,
    )
    else (none, table)

-- `seen` is the table that the query reads, and `table` the one that the update runs on.
unfoldable claim_webhook : String → ℕ → ℕ → List Event → List Event → Option Event × List Event
unfolding is_claimable earliest claim_event_row
claim_webhook worker lease now seen table = elim (earliest (select (is_claimable now) seen)) [
  | none ↦ (none, table)
  | some e ↦ claim_event_row worker lease now e.id table
]

-- the row while the worker holds it
unfoldable pub holds : String → String → Event → Bool
holds i worker e = has_event_id i e && is_processing e.status && opt_eq e.worker_id (some worker)

-- the update of the heartbeat, and whether it changed a row
unfoldable renew_event : String → String → ℕ → ℕ → List Event → List Event × Bool
unfolding holds
renew_event i worker lease now table = (
  update (holds i worker) (λ (e : Event). record e { lease_expires_at = some (now + lease) }) table,
  any (holds i worker) table,
)

-- whether the attempts of the event are used up; `limit` is the worker's own bound
unfoldable pub is_terminal : Event → ℕ → Bool
is_terminal event limit = leb (min event.max_attempts limit) event.attempt_count

-- the values of `_mark_webhook_failed`
unfoldable pub failed_values : Event → String → ℕ → ℕ → ℕ → Event → Event
unfolding is_terminal prefix
failed_values event message limit jitter now e = record e {
  status = if is_terminal event limit then dead_letter else retry_wait;
  error_message = some (prefix 500 message);
  worker_id = none;
  lease_expires_at = none;
  next_attempt_at =
      if is_terminal event limit
      then e.next_attempt_at
      else now + backoff jitter event.attempt_count;
}

-- What the commit writes for the changed attributes of the object: those that differ from what the
-- object was read with. `event` is the row as the worker read it when it claimed it.
unfoldable pub flushed : Event → String → ℕ → ℕ → ℕ → Event → Event
unfolding is_terminal prefix
flushed event message limit jitter now e = record e {
  status = if is_terminal event limit then dead_letter else retry_wait;
  error_message =
      if opt_eq event.error_message (some (prefix 500 message))
      then e.error_message
      else some (prefix 500 message);
  worker_id = if is_some event.worker_id then none else e.worker_id;
  lease_expires_at = if is_some event.lease_expires_at then none else e.lease_expires_at;
  next_attempt_at =
      if is_terminal event limit
        || eqb event.next_attempt_at (now + backoff jitter event.attempt_count)
      then e.next_attempt_at
      else now + backoff jitter event.attempt_count;
}

-- The update under the worker's name, then the commit of the changed object, by its id.
unfoldable pub mark_webhook_failed : Event → String → String → ℕ → ℕ → ℕ → List Event → List Event
unfolding holds failed_values flushed
mark_webhook_failed event message worker limit jitter now table =
    update (has_event_id event.id) (flushed event message limit jitter now)
      (update (holds event.id worker) (failed_values event message limit jitter now) table)
