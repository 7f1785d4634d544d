-- ===== src/Operations/Enqueue/Idempotent.antt =====
-- One operation for a key: what `enqueue` of backend/poi_admin/operations/service.py adds, what it
-- answers a second time, and what it refuses.
use poi_hub.Base.{
  ℕ, String, ◌≡◌, refl, Bool, true, false, Option, none, some, List, [], ◌∷◌, ◌++◌, ◌&&◌, ◌==◌, ◌⊎◌,
  inl, inr, arith, eq_iff, eq_refl, opt_eq, opt_eq_refl, opt_eq_eq,
}
use poi_hub.Base.Result.{ok, err}
use poi_hub.Base.Rows.{find, any}
use poi_hub.Base.Rows.Laws.{Distinct, find-append, none-any, Distinct-append}
use poi_hub.Base.Json.{Fields, fields_eq_refl, IsDictFields}
use poi_hub.Connections.Crypto.{redact_fields}
use poi_hub.Connections.Crypto.Redaction.{redact_fields-IsDict}
use poi_hub.Operations.Model.{Operation, has_key}
use poi_hub.Operations.Enqueue.{
  Connection, EnqueueRequest, idempotency_conflict, same_request, reuse, check_connection,
  check_key, get_by_idempotency_key, new_operation, commit_operation, enqueue,
}

abbrev same_key : Operation → Operation → Bool
same_key a b = has_key a.tenant_id a.idempotency_key b

module _ (sha256 : String → String) (seal : Option (Fields → String)) where
  -- what the key of a request finds in a table
  abbrev pub taken : EnqueueRequest → List Operation → Option Operation
  taken r table = find (has_key r.tenant_id (sha256 r.idempotency_key)) table

  -- The first query reads the table of the commit, or an older one without the key.
  abbrev IsRead : EnqueueRequest → List Operation → List Operation → Type 0
  IsRead r seen table = (taken r seen ≡ none) ⊎ (taken r seen ≡ taken r table)

  module _ (connections : List Connection) (r : EnqueueRequest) (seen t : List Operation)
      {op : Operation} {u : List Operation}
      (e : enqueue sha256 seal connections r seen t ≡ ok (op, u)) where
    -- A call that returns has added the new row for a key that was free, or has added nothing.
    pub enqueue_adds :
        (u ≡ t)
        ⊎ (u ≡ t ++ new_operation sha256 seal r ∷ [])
          × (taken r t ≡ none)
          × (op ≡ new_operation sha256 seal r)
    unfolding enqueue commit_operation reuse get_by_idempotency_key
    enqueue_adds = ground arith

  -- The request as it comes again, with another id and time to draw on.
  abbrev pub again : EnqueueRequest → String → ℕ → EnqueueRequest
  again r i now = record r { new_id = i; now = now }

  same_request-new :
      (r : EnqueueRequest)
      → IsDictFields r.payload
      → same_request (new_operation sha256 seal r) r ≡ true
  unfolding same_request new_operation
  same_request-new r d = ground (
    arith,
    eq_refl r.command_type,
    opt_eq_refl r.connection_id,
    opt_eq_refl r.resource_ref,
    fields_eq_refl (redact_fields r.payload) (redact_fields-IsDict r.payload d),
  )

  has_key-new :
      (r : EnqueueRequest)
      → has_key r.tenant_id (sha256 r.idempotency_key) (new_operation sha256 seal r) ≡ true
  unfolding new_operation
  has_key-new r = ground (arith, eq_refl r.tenant_id, eq_refl (sha256 r.idempotency_key))

  pub taken-new :
      (r : EnqueueRequest) (t : List Operation)
      → taken r t ≡ none
      → taken r (t ++ new_operation sha256 seal r ∷ []) ≡ some (new_operation sha256 seal r)
  taken-new r t h = rw (
    find-append (has_key r.tenant_id (sha256 r.idempotency_key)) t (new_operation sha256 seal r),
    h,
    has_key-new r,
  )

  module _ (connections : List Connection) (r : EnqueueRequest) (seen t : List Operation)
      {op : Operation} {u : List Operation} (d : IsDictFields r.payload) (read : IsRead r seen t)
      (e : enqueue sha256 seal connections r seen t ≡ ok (op, u)) where
    -- After a call that returns, the key finds the answered row, which is the one that was asked for.
    pub enqueue_finds :
        (taken r u ≡ some op)
        × (same_request op r ≡ true)
        × (check_connection connections r ≡ ok tt)
        × (check_key r ≡ ok tt)
    unfolding enqueue commit_operation reuse get_by_idempotency_key check_connection check_key
    enqueue_finds = ground (arith, taken-new r t, same_request-new r d)

    -- The payload has each key once, and the first query read the table of the commit or an older one
    -- without the key. After a call that returned, the same request, whatever id and time it draws and
    -- whether or not its query saw the new row, is answered with the same row and adds nothing.
    pub enqueue-again :
        (i : String) (now : ℕ) (seen' : List Operation)
        → IsRead r seen' u
        → enqueue sha256 seal connections (again r i now) seen' u ≡ ok (op, u)
    unfolding enqueue commit_operation reuse get_by_idempotency_key same_request check_connection
        check_key
    enqueue-again i now seen' read' = ground (arith, enqueue_finds)

    -- another command, or another resource, under the same key
    abbrev other : String → Option String → Fields → String → ℕ → EnqueueRequest
    other command ref p i now = record r {
      command_type = command;
      resource_ref = ref;
      payload = p;
      new_id = i;
      now = now;
    }

    -- Under the same conditions, another command or another resource under the same key, with any
    -- payload, is refused with the conflict error.
    pub enqueue_conflict :
        (command : String) (ref : Option String) (p : Fields) (i : String) (now : ℕ)
        (seen' : List Operation)
        → r.command_type == command && opt_eq r.resource_ref ref ≡ false
        → IsRead r seen' u
        → enqueue sha256 seal connections (other command ref p i now) seen' u
          ≡ err idempotency_conflict
    unfolding enqueue commit_operation reuse get_by_idempotency_key same_request check_connection
        check_key
    enqueue_conflict command ref p i now seen' differs read' = ground (
      arith,
      enqueue_finds,
      eq_iff op.command_type r.command_type,
      opt_eq_eq op.resource_ref r.resource_ref,
    )

  any-same_key :
      (r : EnqueueRequest) (t : List Operation)
      → any (has_key r.tenant_id (sha256 r.idempotency_key)) t ≡ false
      → any (λ x. same_key x (new_operation sha256 seal r)) t ≡ false
  unfolding new_operation
  any-same_key r [] h = refl
  any-same_key r (x ∷ t) h = ground (
    arith,
    any-same_key r t,
    eq_iff x.tenant_id r.tenant_id,
    eq_iff r.tenant_id x.tenant_id,
    eq_iff x.idempotency_key (sha256 r.idempotency_key),
    eq_iff (sha256 r.idempotency_key) x.idempotency_key,
  )

  -- If no two rows share a tenant and a key, none do after a call that returns, whatever table its
  -- query read.
  pub enqueue-Distinct :
      (connections : List Connection) (r : EnqueueRequest) (seen t : List Operation)
      (op : Operation) (u : List Operation)
      → Distinct same_key t
      → enqueue sha256 seal connections r seen t ≡ ok (op, u)
      → Distinct same_key u
  enqueue-Distinct connections r seen t op u h e = elim (enqueue_adds connections r seen t e) [
    | inl same ↦ rw same h
    | inr new ↦ rw new.0 (
        Distinct-append same_key t (new_operation sha256 seal r) h
          (any-same_key r t (none-any (has_key r.tenant_id (sha256 r.idempotency_key)) t new.1)))
  ]

  -- With a free key, a call that returns has added the new row.
  pub enqueue-new :
      (connections : List Connection) (r : EnqueueRequest) (t : List Operation) (op : Operation)
      (u : List Operation)
      → taken r t ≡ none
      → enqueue sha256 seal connections r t t ≡ ok (op, u)
      → (op ≡ new_operation sha256 seal r) × (u ≡ t ++ new_operation sha256 seal r ∷ [])
  unfolding enqueue commit_operation reuse get_by_idempotency_key
  enqueue-new connections r t op u free e = ground arith
