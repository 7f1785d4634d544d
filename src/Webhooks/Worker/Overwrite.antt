-- ===== src/Webhooks/Worker/Overwrite.antt =====
-- What a worker's report of a failed event does to a row that it no longer holds, of
-- backend/poi_admin/operations/worker.py.
use poi_hub.Base.{
  ℕ, String, ◌≡◌, refl, true, none, some, List, is_some, Bool-cases, inl, inr, if◌then◌else◌,
}
use poi_hub.Base.Rows.{find}
use poi_hub.Base.Rows.Laws.{find-update, find-test}
use poi_hub.Webhooks.Model.{Event, dead_letter, retry_wait, has_event_id}
use poi_hub.Webhooks.Worker.{holds, is_terminal, failed_values, flushed, mark_webhook_failed}

-- the row that a failed event leaves
abbrev reported : Event → String → String → ℕ → ℕ → ℕ → Event → Event
unfolding flushed failed_values
reported event message worker limit jitter now row =
    flushed event message limit jitter now
      (if holds event.id worker row then failed_values event message limit jitter now row else row)

-- nobody holds the row, which waits for a retry, or is dead after the last attempt
pub record Released (event : Event) (limit : ℕ) (x : Event) : Type 0 where
  pub status : x.status ≡ (if is_terminal event limit then dead_letter else retry_wait)
  pub worker : x.worker_id ≡ none
  pub lease : x.lease_expires_at ≡ none

-- The worker read the event with its own name and a lease when it claimed it. Its report of a failure
-- ends whatever holds the row now, also another worker's claim: the row waits for a retry, or is dead
-- after its last attempt, and nobody holds it.
pub mark_webhook_failed_overwrites :
    (event : Event) (message worker : String) (limit jitter now : ℕ) (t : List Event) (row : Event)
    → is_some event.worker_id ≡ true
    → is_some event.lease_expires_at ≡ true
    → find (has_event_id event.id) t ≡ some row
    → (x : Event) × (find
          (has_event_id event.id)
          (mark_webhook_failed event message worker limit jitter now t)
        ≡ some x)
      × Released event limit x
unfolding mark_webhook_failed holds failed_values flushed
mark_webhook_failed_overwrites event message worker limit jitter now t row owner lease found =
    let i = event.id in
    let mine : has_event_id i row ≡ true = find-test (has_event_id i) t row found in
    (
      reported event message worker limit jitter now row,
      rw
          (
            find-update (has_event_id i) (has_event_id i) (flushed event message limit jitter now)
                (λ x. refl) _,
            find-update (has_event_id i) (holds i worker)
                (failed_values event message limit jitter now) (λ x. refl) t,
            found,
          )
          (elim (Bool-cases (holds i worker row)) [
            | inl held ↦ rw (held, mine) refl
            | inr lost ↦ rw (lost, mine) refl
          ]),
      record { status = refl; worker = rw owner refl; lease = rw lease refl },
    )
