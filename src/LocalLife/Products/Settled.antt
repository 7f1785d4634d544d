-- ===== src/LocalLife/Products/Settled.antt =====
-- When a product is open to a change, and where the handlers of
-- backend/poi_admin/local_life/products.py leave it.
use poi_hub.Base.{
  ◌⊎◌, inl, inr, Bool-cases, sym, ◌∙◌, eq_iff, refl, and_right, String, Bool, true, false, none,
  some, List, [], ◌∷◌, ◌≡◌, is_some, arith,
}
use poi_hub.Base.Result.{ok, err}
use poi_hub.Base.Rows.{any, find}
use poi_hub.Base.Rows.Laws.{find-test}
use poi_hub.Operations.Model.{Operation, OperationStatus, has_id}
use poi_hub.Operations.Enqueue.{get_by_idempotency_key}
use poi_hub.LocalLife.Products.Status.{
  ProductStatus, parse_status, ProductAction, parse_action, action_target, status_eq,
}
use poi_hub.LocalLife.Products.Model.{
  Product, is_product, product_ref, ProductDb, ProductError, service, get_product,
}
use poi_hub.LocalLife.Products.Service.{
  Context, Draw, is_active, ProductUpdateRequest, is_pending, check, require, require_no_pending,
  settled_status, wanting, action_new, enqueue_action, update_new, update_product,
}
use poi_hub.LocalLife.Products.Intent.{action_new-Accepted}

get_product-id :
    (tenant i : String) (db : ProductDb) (p : Product) → get_product tenant i db ≡ some p → p.id ≡ i
unfolding get_product
get_product-id tenant i db p found =
    (eq_iff p.id i).0 (and_right _ _ (find-test (is_product tenant i) db.products p found))

-- Both calls of a product refuse, under keys that are free.
abbrev Refused : Context → String → String → ProductDb → ProductError → Type 0
Refused c tenant i db e =
    ((draw : Draw) (a : ProductAction) (key : String) → action_new c draw tenant i a key db ≡ err e)
    × ((draw : Draw) (r : ProductUpdateRequest) (audit_free : Bool)
        → update_new c draw tenant i r audit_free db ≡ err e)

pending-Refused :
    (c : Context) (tenant i : String) (db : ProductDb) (p : Product)
    → get_product tenant i db ≡ some p
    → is_some p.external_product_id ≡ true
    → any (is_pending tenant p) db.operations ≡ true
    → Refused c tenant i db (service "product_operation_pending" 409)
unfolding action_new update_new require check require_no_pending
pending-Refused c tenant i db p found ready pending =
    (λ draw a key. ground arith, λ draw r audit_free. ground arith)

unsettled-Refused :
    (c : Context) (tenant i : String) (db : ProductDb) (p : Product)
    (remote desired : ProductStatus)
    → get_product tenant i db ≡ some p
    → is_some p.external_product_id ≡ true
    → any (is_pending tenant p) db.operations ≡ false
    → parse_status p.remote_status ≡ some remote
    → parse_status p.desired_state ≡ some desired
    → status_eq desired remote ≡ false
    → Refused c tenant i db (service "product_state_pending" 409)
unfolding action_new update_new require check require_no_pending settled_status
unsettled-Refused c tenant i db p remote desired found ready idle r d differ =
    (λ draw a key. ground arith, λ draw q audit_free. ground arith)

module _ (c : Context) (draw : Draw) (tenant i : String) (db : ProductDb) where
  -- the service's calls, on what they refuse under free keys
  calls-Refused :
      (name : String) (a : ProductAction) (key : String) (r : ProductUpdateRequest)
      (audit_free : Bool) (e : ProductError)
      → parse_action name ≡ some a
      → get_by_idempotency_key c.sha256 c.seal tenant key db.operations ≡ none
      → get_by_idempotency_key c.sha256 c.seal tenant r.idempotency_key db.operations ≡ none
      → Refused c tenant i db e
      → (enqueue_action c draw tenant i name key db ≡ err e)
        × (update_product c draw tenant i r audit_free db ≡ err e)
  unfolding require enqueue_action update_product
  calls-Refused name a key r audit_free e known free free' refused = (
    rw (known, enqueue_action) (rw (free, enqueue_action) (refused.0 draw a key)),
    rw (free', update_product) (refused.1 draw r audit_free),
  )

  -- A product that is on the platform, has no pending operation and wants another status than its
  -- remote one: every known action and every update under a free key is refused as still pending.
  pub unsettled_refused :
      (name : String) (a : ProductAction) (key : String) (r : ProductUpdateRequest)
      (audit_free : Bool) (p : Product) (remote desired : ProductStatus)
      → parse_action name ≡ some a
      → get_by_idempotency_key c.sha256 c.seal tenant key db.operations ≡ none
      → get_by_idempotency_key c.sha256 c.seal tenant r.idempotency_key db.operations ≡ none
      → get_product tenant i db ≡ some p
      → is_some p.external_product_id ≡ true
      → any (is_pending tenant p) db.operations ≡ false
      → parse_status p.remote_status ≡ some remote
      → parse_status p.desired_state ≡ some desired
      → status_eq desired remote ≡ false
      → (enqueue_action c draw tenant i name key db ≡ err (service "product_state_pending" 409))
        × (update_product c draw tenant i r audit_free db
            ≡ err (service "product_state_pending" 409))
  unsettled_refused name a key r audit_free p remote desired known free free' found ready idle at
        wants differ =
      calls-Refused name a key r audit_free (service "product_state_pending" 409) known free free'
        (unsettled-Refused c tenant i db p remote desired found ready idle at wants differ)

any-found :
    {A : Type 0} (q p : A → Bool) (xs : List A) (x : A)
    → find q xs ≡ some x
    → p x ≡ true
    → any p xs ≡ true
any-found q p [] x found h = absurd (ground arith)
any-found q p (y ∷ xs) x found h = elim (Bool-cases (q y)) [
  | inl hit ↦ let same : y ≡ x = ground arith in rw same (rw h refl)
  | inr miss ↦ ground (arith, any-found q p xs x)
]

-- waiting to be run, running, or waiting for a retry
abbrev pub IsOpen : OperationStatus → Type 0
IsOpen s =
    (s ≡ OperationStatus.queued)
    ⊎ ((s ≡ OperationStatus.running) ⊎ (s ≡ OperationStatus.retry_wait))

is_active-IsOpen : (s : OperationStatus) → IsOpen s → is_active s ≡ true
is_active-IsOpen s (inl h) = rw h refl
is_active-IsOpen s (inr (inl h)) = rw h refl
is_active-IsOpen s (inr (inr h)) = rw h refl

-- An operation that refers to the product is pending while it is open.
open-is_pending :
    (tenant : String) (p q : Product) (op x : Operation)
    → is_pending tenant p op ≡ true
    → q.id ≡ p.id
    → x.tenant_id ≡ op.tenant_id
    → x.resource_ref ≡ op.resource_ref
    → IsOpen x.status
    → is_pending tenant q x ≡ true
unfolding is_pending product_ref
open-is_pending tenant p q op x pending same_id same_tenant same_ref is_open =
    rw (same_id, same_tenant, same_ref, is_active-IsOpen x.status is_open) (ground arith)

-- After an action under a free key is accepted, take any later tables in which the product is still
-- there with its id on the platform, and the row of the operation, of the same tenant and for the same
-- resource, is still queued, running or waiting for a retry: every further action and every update of
-- the product under keys that are free then is refused as pending.
pub action_excludes :
    (c : Context) (draw draw' : Draw) (tenant i : String) (a : ProductAction) (key : String)
    (db : ProductDb) (op : Operation) (db' later : ProductDb) (x : Operation) (q : Product)
    (name : String) (b : ProductAction) (key' : String) (r : ProductUpdateRequest)
    (audit_free : Bool)
    → get_by_idempotency_key c.sha256 c.seal tenant key db.operations ≡ none
    → action_new c draw tenant i a key db ≡ ok (op, db')
    → find (has_id op.id) later.operations ≡ some x
    → x.tenant_id ≡ op.tenant_id
    → x.resource_ref ≡ op.resource_ref
    → IsOpen x.status
    → get_product tenant i later ≡ some q
    → is_some q.external_product_id ≡ true
    → parse_action name ≡ some b
    → get_by_idempotency_key c.sha256 c.seal tenant key' later.operations ≡ none
    → get_by_idempotency_key c.sha256 c.seal tenant r.idempotency_key later.operations ≡ none
    → (enqueue_action c draw' tenant i name key' later
        ≡ err (service "product_operation_pending" 409))
      × (update_product c draw' tenant i r audit_free later
          ≡ err (service "product_operation_pending" 409))
action_excludes c draw draw' tenant i a key db op db' later x q name b key' r audit_free free e
      there same_tenant same_ref is_open found ready known free' free'' =
    let k = action_new-Accepted c draw tenant i a key db op db' free e in
    let p : Product = wanting k.product (action_target a) in
    let same_id : q.id ≡ p.id =
      get_product-id tenant i later q found ∙ sym (get_product-id tenant i db' p k.becomes) in
    let last : any (is_pending tenant q) later.operations ≡ true =
      any-found (has_id op.id) (is_pending tenant q) later.operations x there
        (open-is_pending tenant p q op x k.pending same_id same_tenant same_ref is_open) in
    calls-Refused c draw' tenant i later name b key' r audit_free
      (service "product_operation_pending" 409) known free' free''
      (pending-Refused c tenant i later q found ready last)
