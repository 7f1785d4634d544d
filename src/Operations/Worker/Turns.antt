-- ===== src/Operations/Worker/Turns.antt =====
-- How a turn of the worker of backend/poi_admin/operations/worker.py ends.
use poi_hub.Base.{
  ℕ, String, ◌≡◌, refl, ap, eq_refl, ◌∙◌, true, false, Option, some, List, ◌==◌, arith, Bool-cases,
  Option-cases, inl, inr, ◌⊎◌,
}
use poi_hub.Base.Rows.{find}
use poi_hub.Base.Rows.Laws.{find-update, find-test, Distinct}
use poi_hub.Base.Result.{Result, ok, err}
use poi_hub.Base.Json.{Fields}
use poi_hub.Operations.Model.{Operation, OperationStatus, has_id, is_running}
use poi_hub.Operations.Errors.{Failure, other}
use poi_hub.Operations.Lease.{claim, claim_from, take_lease}
use poi_hub.Operations.Lease.Claims.{same_id, claim_takes}
use poi_hub.Operations.Outcome.{Report, is_owned, succeed, mark_succeeded, mark_failed}
use poi_hub.Operations.Outcome.Reports.{may_retry, mark_failed_reports}
use poi_hub.Operations.Worker.{
  World, Called, answered, broken, left_by, Handler, Worker, open_payload, after_call, report,
  no_handler, call_handler, report_result, run_operation, run_once,
}

-- the row is there and does not run
abbrev pub Rests : String → List Operation → Type 0
Rests i t = (x : Operation) × (find (has_id i) t ≡ some x) × (is_running x.status ≡ false)

-- A handler may add operations to the queue, and leaves the rows that are there.
abbrev pub KeepsRows : (W : Type 0) → (String → Option (Handler W)) → Type 0
KeepsRows W handlers =
    (command : String) (h : Handler W) (op : Operation) (now : ℕ) (s : World W) (i : String)
    (row : Operation)
    → handlers command ≡ some h
    → find (has_id i) s.operations ≡ some row
    → find (has_id i) (left_by (h op now s)).operations ≡ some row

failed-Rests :
    (op : Operation) (r : Report) (name : String) (jitter now : ℕ) (t : List Operation)
    → name == "" ≡ false
    → find (has_id op.id) t ≡ some op
    → op.status ≡ OperationStatus.running
    → op.worker_id ≡ some name
    → Rests op.id (mark_failed op r (some name) jitter now t)
failed-Rests op r name jitter now t named found running held =
    let (x, there, told) = mark_failed_reports op r name jitter now t op named found running held in
    (
      x,
      there,
      rw told.status (elim (Bool-cases (may_retry op r)) [
        | inl more ↦ rw more refl
        | inr last ↦ rw last refl
      ]),
    )

succeeded-Rests :
    (op : Operation) (response : Option Fields) (name : String) (now : ℕ) (t : List Operation)
    → name == "" ≡ false
    → find (has_id op.id) t ≡ some op
    → op.status ≡ OperationStatus.running
    → op.worker_id ≡ some name
    → Rests op.id (mark_succeeded op response (some name) now t)
unfolding is_owned succeed mark_succeeded
succeeded-Rests op response name now t named found running held =
    let mine : is_owned op (some name) (some name) op ≡ true =
      ground (arith, find-test (has_id op.id) t op found, eq_refl name) in
    (
      succeed response now op,
      rw (named, mark_succeeded)
          (find-update (has_id op.id) (is_owned op (some name) (some name)) (succeed response now)
              (λ x. refl) t
            ∙ rw found (rw mine)),
      refl,
    )

-- The handler of the operation has left a broken session: the turn raises, and the row is as it was.
abbrev pub IsBroken :
    {W : Type 0}
    → Worker W
    → ℕ
    → ℕ
    → Operation
    → World W
    → Result Failure (Option Operation) × World W
    → Type 0
IsBroken {W} w jitter now op s (r, end) =
    (h : Handler W) × (s' : World W) × (w.handlers op.command_type ≡ some h)
    × (call_handler w jitter now h op s ≡ broken s')
    × (r ≡ err other)
    × (find (has_id op.id) end.operations ≡ some op)

module _ {W : Type 0} (w : Worker W) (jitter now : ℕ) (keeps : KeepsRows W w.handlers)
    (named : w.worker_id == "" ≡ false) where
  reported-Rests :
      (op : Operation) (r : Result Failure (Option Fields)) (t : List Operation)
      → find (has_id op.id) t ≡ some op
      → op.status ≡ OperationStatus.running
      → op.worker_id ≡ some w.worker_id
      → Rests op.id (report_result w jitter now op r t)
  unfolding report_result
  reported-Rests op (ok response) t found running held =
      succeeded-Rests op response w.worker_id now t named found running held
  reported-Rests op (err e) t found running held =
      failed-Rests op (report e) w.worker_id jitter now t named found running held

  called-keeps :
      (h : Handler W) (op : Operation) (s : World W)
      → w.handlers op.command_type ≡ some h
      → find (has_id op.id) s.operations ≡ some op
      → find (has_id op.id) (left_by (call_handler w jitter now h op s)).operations ≡ some op
  unfolding call_handler
  called-keeps h op s known found = elim (Option-cases (open_payload w.opened op)) [
    | inl sealed ↦ rw (sealed, call_handler) found
    | inr (payload, opened) ↦
        rw (opened, call_handler)
          (keeps op.command_type h (record op { payload = payload }) now s op.id op known found)
  ]

  ended :
      (op : Operation) (c : Called W)
      → find (has_id op.id) (left_by c).operations ≡ some op
      → op.status ≡ OperationStatus.running
      → op.worker_id ≡ some w.worker_id
      → Rests op.id (after_call w jitter now op c).1.operations
        ⊎ ((s' : World W) × (c ≡ broken s')
            × ((after_call w jitter now op c).0 ≡ err other)
            × (find (has_id op.id) (after_call w jitter now op c).1.operations ≡ some op))
  unfolding after_call
  ended op (answered r s) found running held =
      inl (reported-Rests op r s.operations found running held)
  ended op (broken s) found running held = inr (s, refl, refl, found)

  operated-Rests :
      (op : Operation) (s : World W)
      → find (has_id op.id) s.operations ≡ some op
      → op.status ≡ OperationStatus.running
      → op.worker_id ≡ some w.worker_id
      → Rests op.id (run_operation w jitter now op s).1.operations
        ⊎ IsBroken w jitter now op s (run_operation w jitter now op s)
  unfolding run_operation
  operated-Rests op s found running held = elim (Option-cases (w.handlers op.command_type)) [
    | inl missing ↦
        rw (missing, run_operation)
          (inl (
            failed-Rests op no_handler w.worker_id jitter now s.operations named found running
              held))
    | inr (h, known) ↦
        let c = call_handler w jitter now h op s in
        let run : run_operation w jitter now op s ≡ after_call w jitter now op c =
          rw (known, run_operation) refl in
        rw run (elim (ended op c (called-keeps h op s known found) running held) [
          | inl rests ↦ inl rests
          | inr (s', broke, raised, there) ↦ inr (h, s', known, broke, raised, there)
        ])
  ]

  -- The worker has a name, its handlers leave the rows of the queue, and no two rows share an id. A turn
  -- that claims an operation ends with that operation's row in the queue and not running, whatever the
  -- handler answers or raises, except where the handler leaves the session broken by a failed statement:
  -- then the turn raises, and the row is still as it was claimed.
  pub run_once-Rests :
      (s : World W) (op : Operation) (u : List Operation)
      → Distinct same_id s.operations
      → claim w.worker_id w.lease now s.operations ≡ (some op, u)
      → Rests op.id (run_once w jitter now s.operations s).1.operations
        ⊎ IsBroken w jitter now op
            (record s { operations = u })
            (run_once w jitter now s.operations s)
  unfolding run_once take_lease claim
  run_once-Rests s op u d e =
      let c = claim_takes w.worker_id w.lease now s.operations op u d e in
      let found : find (has_id op.id) u ≡ some op = c.rows op.id ∙ rw (eq_refl op.id) refl in
      let running : op.status ≡ OperationStatus.running =
        ap (λ (x : Operation). x.status) c.taken in
      let held : op.worker_id ≡ some w.worker_id = ap (λ (x : Operation). x.worker_id) c.taken in
      let turn : claim_from w.worker_id w.lease now s.operations s.operations ≡ (some op, u) =
        unfold claim in e in
      let took : (claim_from w.worker_id w.lease now s.operations s.operations).0 ≡ some op =
        cc turn in
      let left : (claim_from w.worker_id w.lease now s.operations s.operations).1 ≡ u = cc turn in
      rw (took, run_once)
        (rw left (operated-Rests op (record s { operations = u }) found running held))
