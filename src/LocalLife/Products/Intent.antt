-- ===== src/LocalLife/Products/Intent.antt =====
-- The intent of a queued product action, and the product that it is about.
use poi_hub.Base.{
  String, true, false, none, some, List, [], ◌∷◌, ◌≡◌, refl, ap, sym, subst, eq_iff, and_left,
  and_right, ◌∙◌, ◌++◌, is_some, eq_refl, arith, Option-cases, inl, inr,
}
use poi_hub.Base.Result.{Result, ok, err}
use poi_hub.Base.Json.{Fields, end}
use poi_hub.Base.Rows.{find, write, any}
use poi_hub.Base.Rows.Laws.{find-write_self, find-test}
use poi_hub.Connections.Crypto.{is_sensitive, redact_secrets, redact_fields}
use poi_hub.Operations.Model.{Operation}
use poi_hub.Operations.Enqueue.{
  EnqueueRequest, OperationError, new_operation, enqueue, get_by_idempotency_key,
}
use poi_hub.Operations.Enqueue.Idempotent.{enqueue-new}
use poi_hub.LocalLife.Products.Status.{
  ProductStatus, value, parse_status, parse_status-value, ProductAction, action_command,
  action_target, action_allowed, status_eq,
}
use poi_hub.LocalLife.Products.Model.{
  Product, ProductDb, ProductError, is_product, get_product, save_product, product_ref,
}
use poi_hub.LocalLife.Products.Service.{
  Context, Draw, is_pending, check, require, require_no_pending, settled_status, enqueue_for,
  intent, wanting, action_new,
}
use poi_hub.LocalLife.Products.Handlers
use poi_hub.LocalLife.Products.Handlers.{Intent, validate_intent}

status_eq_refl : (s : ProductStatus) → status_eq s s ≡ true
unfolding status_eq
status_eq_refl s = eq_refl (value s)

-- Nothing of an intent is redacted.
redact-intent :
    (p : Product) (source target : ProductStatus)
    → redact_fields (intent p source target end) ≡ intent p source target end
unfolding redact_secrets is_sensitive
redact-intent p source target = refl

-- An operation whose payload is the intent of a product passes the handler's check of the intent.
validate_intent-intent :
    (p : Product) (op : Operation) (source target : ProductStatus)
    → op.payload ≡ intent p source target end
    → parse_status p.remote_status ≡ some source
    → p.desired_state ≡ value target
    → validate_intent p op ≡ ok (record { source = source; target = target; current = source })
unfolding validate_intent Handlers.require Handlers.check
validate_intent-intent p op source target payload remote desired =
    rw (payload, remote, desired)
      (rw
        (
          parse_status-value source,
          parse_status-value target,
          status_eq_refl target,
          status_eq_refl source,
        )
        (ground arith))

settled-parse :
    (p : Product) (s : ProductStatus)
    → settled_status p ≡ ok s
    → (parse_status p.remote_status ≡ some s)
unfolding settled_status
settled-parse p s h = ground arith

get-save :
    (tenant i : String) (p q : Product) (db : ProductDb)
    → get_product tenant i db ≡ some p
    → q.tenant_id ≡ p.tenant_id
    → q.id ≡ p.id
    → get_product tenant i (save_product q db) ≡ some q
unfolding get_product
get-save tenant i p q db found same_tenant same_id =
    let fits = find-test (is_product tenant i) db.products p found in
    let t : q.tenant_id ≡ tenant =
      same_tenant ∙ (eq_iff p.tenant_id tenant).0 (and_left _ _ fits) in
    let d : q.id ≡ i = same_id ∙ (eq_iff p.id i).0 (and_right _ _ fits) in
    subst
      (λ x. find (is_product tenant i) (write (is_product x q.id) (λ _. q) db.products) ≡ some q)
      (sym t)
      (subst
        (λ x.
          find (is_product tenant i) (write (is_product tenant x) (λ _. q) db.products) ≡ some q)
        (sym d)
        (find-write_self (is_product tenant i) q db.products p found (
          ground
            (arith, t, d, eq_refl tenant, eq_refl i, eq_iff q.tenant_id tenant, eq_iff q.id i))))

-- What an accepted action has done, under a key that was free.
pub record Accepted (tenant i : String) (a : ProductAction) (db : ProductDb) (op : Operation)
    (db' : ProductDb) : Type 0 where
  pub product : Product
  pub current : ProductStatus
  pub was : get_product tenant i db ≡ some product
  pub at : parse_status product.remote_status ≡ some current
  pub allowed : action_allowed a current ≡ true
  pub ready : is_some product.external_product_id ≡ true
  pub idle : any (is_pending tenant product) db.operations ≡ false
  pub becomes : get_product tenant i db' ≡ some (wanting product (action_target a))
  pub command : op.command_type ≡ action_command a
  pub intended :
      validate_intent (wanting product (action_target a)) op
      ≡ ok (record { source = current; target = action_target a; current = current })
  pub pending : is_pending tenant (wanting product (action_target a)) op ≡ true
  pub queued : db'.operations ≡ db.operations ++ op ∷ []

-- What the checks of an accepted call have found, up to the queueing.
record Checked (c : Context) (draw : Draw) (tenant i : String) (a : ProductAction) (key : String)
    (db : ProductDb) (op : Operation) (db' : ProductDb) : Type 0 where
  product : Product
  current : ProductStatus
  was : get_product tenant i db ≡ some product
  ready : is_some product.external_product_id ≡ true
  settled : settled_status product ≡ ok current
  allowed : action_allowed a current ≡ true
  idle : any (is_pending tenant product) db.operations ≡ false
  queued :
      enqueue_for c draw tenant
        (action_command a)
        key
        (intent (wanting product (action_target a)) current (action_target a) end)
        (wanting product (action_target a))
        db
      ≡ ok (op, db')

action_new-Checked :
    (c : Context) (draw : Draw) (tenant i : String) (a : ProductAction) (key : String)
    (db : ProductDb) (op : Operation) (db' : ProductDb)
    → action_new c draw tenant i a key db ≡ ok (op, db')
    → Checked c draw tenant i a key db op db'
unfolding action_new require check require_no_pending
action_new-Checked c draw tenant i a key db op db' e =
    elim (Option-cases (get_product tenant i db)) [
      | inl missing ↦ absurd (ground arith)
      | inr (p, found) ↦ steps p found (settled_status p) refl
    ]
  where
    steps :
        (p : Product)
        → get_product tenant i db ≡ some p
        → (r : Result ProductError ProductStatus) → settled_status p ≡ r
        → Checked c draw tenant i a key db op db'
    steps p found (ok s) settled = record {
      product = p;
      current = s;
      was = found;
      ready = ground arith;
      settled = settled;
      allowed = ground arith;
      idle = ground arith;
      queued = ground arith;
    }
    steps p found (err x) settled = absurd (ground arith)

-- The request that the service makes for a product.
abbrev request_for : Draw → String → String → String → Fields → Product → EnqueueRequest
request_for draw tenant command key payload p = record {
  tenant_id = tenant;
  command_type = command;
  idempotency_key = key;
  payload = payload;
  connection_id = some p.connection_id;
  resource_ref = some (product_ref p);
  max_attempts = 8;
  new_id = draw.new_id;
  now = draw.now;
}

enqueue_for-new :
    (c : Context) (draw : Draw) (tenant command key : String) (payload : Fields) (p : Product)
    (db : ProductDb) (op : Operation) (db' : ProductDb)
    → get_by_idempotency_key c.sha256 c.seal tenant key db.operations ≡ none
    → enqueue_for c draw tenant command key payload p db ≡ ok (op, db')
    → (op ≡ new_operation c.sha256 c.seal (request_for draw tenant command key payload p))
      × (db' ≡ record (save_product p db) { operations = db.operations ++ op ∷ [] })
unfolding enqueue_for get_by_idempotency_key
enqueue_for-new c draw tenant command key payload p db op db' free e =
    steps (enqueue c.sha256 c.seal c.connections r db.operations db.operations) refl
  where
    r : EnqueueRequest
    r = request_for draw tenant command key payload p

    steps :
        (x : Result OperationError (Operation × List Operation))
        → enqueue c.sha256 c.seal c.connections r db.operations db.operations ≡ x
        → (op ≡ new_operation c.sha256 c.seal r)
          × (db' ≡ record (save_product p db) { operations = db.operations ++ op ∷ [] })
    steps (ok (o, u)) added =
        ground (arith, enqueue-new c.sha256 c.seal c.connections r db.operations o u free added)
    steps (err x) failed = absurd (ground arith)

-- Under a key that is free, an accepted action on a product found it at a status from which the
-- action is allowed, with no operation on it pending. Now it wants the action's target under its
-- next version; one operation is queued, it is pending on the product, and its intent, from the
-- status found to the target, passes the check that its handler will make.
pub action_new-Accepted :
    (c : Context) (draw : Draw) (tenant i : String) (a : ProductAction) (key : String)
    (db : ProductDb) (op : Operation) (db' : ProductDb)
    → get_by_idempotency_key c.sha256 c.seal tenant key db.operations ≡ none
    → action_new c draw tenant i a key db ≡ ok (op, db')
    → Accepted tenant i a db op db'
unfolding is_pending new_operation
action_new-Accepted c draw tenant i a key db op db' free e =
    let k = action_new-Checked c draw tenant i a key db op db' e in
    let p : Product = k.product in
    let current : ProductStatus = k.current in
    let p' : Product = wanting p (action_target a) in
    let added =
      enqueue_for-new c draw tenant (action_command a) key (intent p' current (action_target a) end)
        p' db op db' free k.queued in
    record {
      product = p;
      current = current;
      was = k.was;
      ready = k.ready;
      at = settled-parse p current k.settled;
      allowed = k.allowed;
      idle = k.idle;
      becomes = rw added.1 (unfold get_product in get-save tenant i p p' db k.was refl refl);
      command = ap (λ (x : Operation). x.command_type) added.0;
      intended =
          validate_intent-intent p' op current (action_target a)
            (ap (λ (x : Operation). x.payload) added.0 ∙ redact-intent p' current (action_target a))
            (settled-parse p current k.settled) refl;
      pending = ground (arith, added.0, eq_refl tenant, eq_refl (product_ref p'));
      queued = ap (λ (x : ProductDb). x.operations) added.1;
    }
