-- ===== src/Operations/Steps.antt =====
-- The queue as any number of sessions change it: every call of backend/poi_admin/operations/service.py
-- that writes, each on the table as it finds it, in any order and with any arguments; `seen` is what the
-- query of a call has read before.
pub mod Valid
pub mod Final
use poi_hub.Base.{ℕ, String, Option, List, ◌≡◌, true}
use poi_hub.Base.Json.{Fields}
use poi_hub.Base.Result.{ok}
use poi_hub.Operations.Model.{Operation}
use poi_hub.Operations.Enqueue.{Connection, EnqueueRequest, enqueue}
use poi_hub.Operations.Lease.{claim_from, renew_lease}
use poi_hub.Operations.Outcome.{Report, mark_succeeded, mark_failed}
use poi_hub.Base.Rows.{any}
use poi_hub.Operations.Retry.{get, manual_retry, manual_retry_many}
use poi_hub.Operations.Retry.Batch.{same_text}

module _ (sha256 : String → String) (seal : Option (Fields → String))
    (connections : List Connection) where
  pub data Step : List Operation → List Operation → Type 0 where
    enqueued :
        (r : EnqueueRequest) (seen t : List Operation) (op : Operation) (u : List Operation)
        → enqueue sha256 seal connections r seen t ≡ ok (op, u)
        → Step t u
    claimed :
        (worker : String) (lease now : ℕ) (seen t : List Operation)
        → Step t (claim_from worker lease now seen t).1
    renewed :
        (i worker : String) (lease now : ℕ) (t : List Operation)
        → Step t (renew_lease i worker lease now t).1
    marked_succeeded :
        (operation : Operation) (response : Option Fields) (worker : Option String) (now : ℕ)
        (t : List Operation)
        → Step t (mark_succeeded operation response worker now t)
    marked_failed :
        (operation : Operation) (report : Report) (worker : Option String) (jitter now : ℕ)
        (t : List Operation)
        → Step t (mark_failed operation report worker jitter now t)
    retried :
        (tenant i : String) (now : ℕ) (seen t : List Operation) (op : Operation)
        (u : List Operation)
        → manual_retry tenant i now seen t ≡ ok (op, u)
        → Step t u
    batch_retried :
        (tenant : String) (now : ℕ) (ids : List String) (seen t : List Operation)
        → Step t (manual_retry_many tenant now ids seen t).1

  pub data Reach (s : List Operation) : List Operation → Type 0 where
    here : Reach s s
    next : {t u : List Operation} → Reach s t → Step t u → Reach s u

  -- A manual retry finds the rows that it names, when it writes them, as it has read them; the other
  -- calls test what they write in the statement that writes it.
  abbrev pub IsTimely : {t u : List Operation} → Step t u → Type 0
  IsTimely (enqueued r seen t op u e) = Unit
  IsTimely (claimed worker lease now seen t) = Unit
  IsTimely (renewed i worker lease now t) = Unit
  IsTimely (marked_succeeded operation response worker now t) = Unit
  IsTimely (marked_failed operation report worker jitter now t) = Unit
  IsTimely (retried tenant i now seen t op u e) = get tenant i seen ≡ get tenant i t
  IsTimely (batch_retried tenant now ids seen t) =
      (j : String) → any (same_text j) ids ≡ true → get tenant j seen ≡ get tenant j t

  abbrev pub AllTimely : {s t : List Operation} → Reach s t → Type 0
  AllTimely here = Unit
  AllTimely (next r step) = AllTimely r × IsTimely step
