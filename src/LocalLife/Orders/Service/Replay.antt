-- ===== src/LocalLife/Orders/Service/Replay.antt =====
-- A request for an order that comes again, of backend/poi_admin/local_life/orders.py.
use poi_hub.Base.{
  String, ◌≡◌, refl, ◌∙◌, true, none, some, List, arith, eq_refl, Option-cases, inl, inr,
}
use poi_hub.Base.Result.{ok, after_ok, result-cases}
use poi_hub.Base.Rows.{find}
use poi_hub.Base.Rows.Laws.{find-append}
use poi_hub.Base.Json.{str, field, end}
use poi_hub.Base.Text.{concat}
use poi_hub.Connections.Crypto.{is_sensitive, redact_secrets}
use poi_hub.Operations.Model.{Operation}
use poi_hub.Operations.Enqueue.{
  Connection, EnqueueRequest, enqueue, new_operation, get_by_idempotency_key,
}
use poi_hub.Operations.Enqueue.Idempotent.{enqueue-new, taken-new}
use poi_hub.LocalLife.Orders.Model.{Order, OrderDb, is_external}
use poi_hub.LocalLife.Orders.Service.{
  Context, Draw, OrderSyncRequest, check, connection_of, queued_as, order_sync_command, new_order,
  is_same_sync, order_for, enqueue_order_sync, sync_order,
}

unfoldable order_request : Draw → String → OrderSyncRequest → Order → EnqueueRequest
unfolding concat
order_request draw tenant r o = record {
  tenant_id = tenant;
  command_type = order_sync_command;
  idempotency_key = r.idempotency_key;
  payload = field "order_id" (str o.id) (field "external_order_id" (str r.external_order_id) end);
  connection_id = some r.connection_id;
  resource_ref = some (concat "local_order:" o.id);
  max_attempts = 8;
  new_id = draw.operation_id;
  now = draw.now;
}

same_sync-new :
    (c : Context) (draw : Draw) (tenant : String) (r : OrderSyncRequest) (o : Order)
    → is_same_sync (new_operation c.sha256 c.seal (order_request draw tenant r o)) r ≡ true
unfolding is_same_sync new_operation order_request redact_secrets is_sensitive
same_sync-new c draw tenant r o =
    ground (arith, eq_refl r.connection_id, eq_refl r.external_order_id, eq_refl order_sync_command)

is_external-new :
    (i tenant : String) (r : OrderSyncRequest)
    → is_external tenant r.connection_id r.external_order_id (new_order i tenant r) ≡ true
unfolding is_external new_order
is_external-new i tenant r =
    ground (arith, eq_refl tenant, eq_refl r.connection_id, eq_refl r.external_order_id)

-- the row that a request finds afterwards
order_for-row :
    (i tenant : String) (r : OrderSyncRequest) (orders : List Order)
    → find (is_external tenant r.connection_id r.external_order_id) (order_for i tenant r orders).1
      ≡ some (order_for i tenant r orders).0
unfolding order_for
order_for-row i tenant r orders =
    elim (Option-cases (find (is_external tenant r.connection_id r.external_order_id) orders)) [
      | inr (o, there) ↦ rw (order_for, there) there
      | inl new ↦
          rw (order_for, new)
            (rw
              (
                find-append (is_external tenant r.connection_id r.external_order_id) orders
                    (new_order i tenant r),
                new,
                is_external-new i tenant r,
              )
              refl)
    ]

order_for_known :
    (i tenant : String) (r : OrderSyncRequest) (orders : List Order) (o : Order)
    → find (is_external tenant r.connection_id r.external_order_id) orders ≡ some o
    → order_for i tenant r orders ≡ (o, orders)
unfolding order_for
order_for_known i tenant r orders o row = rw (order_for, row) refl

-- a call for a key that is free
sync_order-new :
    (c : Context) (draw : Draw) (tenant : String) (r : OrderSyncRequest) (db : OrderDb) (o : Order)
    (op : Operation) (db' : OrderDb)
    → get_by_idempotency_key c.sha256 c.seal tenant r.idempotency_key db.operations ≡ none
    → sync_order c draw tenant r db ≡ ok ((o, op), db')
    → (k : Connection) × (connection_of c.connections tenant r.connection_id ≡ ok k)
      × (o ≡ (order_for draw.row_id tenant r db.orders).0)
      × (db'.orders ≡ (order_for draw.row_id tenant r db.orders).1)
      × (enqueue_order_sync c draw tenant r o db.operations ≡ ok (op, db'.operations))
unfolding sync_order
sync_order-new c draw tenant r db o op db' free e =
    after_ok (connection_of c.connections tenant r.connection_id) _ ((o, op), db') _
      (λ k there rest.
        elim (result-cases (
          enqueue_order_sync c draw tenant r (order_for draw.row_id tenant r db.orders).0
            db.operations)) [
              | inr (f, failed) ↦ absurd (ground arith)
              | inl ((op', u), queued') ↦
                  let same : o ≡ (order_for draw.row_id tenant r db.orders).0 = ground arith in
                  let orders : db'.orders ≡ (order_for draw.row_id tenant r db.orders).1 =
                    ground arith in
                  let a : op ≡ op' = ground arith in
                  let b : db'.operations ≡ u = ground arith in
                  (k, there, same, orders, rw (same, a, b) queued')
            ])
      e

enqueue-found :
    (c : Context) (draw : Draw) (tenant : String) (r : OrderSyncRequest) (o : Order)
    (t : List Operation) (op : Operation) (u : List Operation)
    → get_by_idempotency_key c.sha256 c.seal tenant r.idempotency_key t ≡ none
    → enqueue_order_sync c draw tenant r o t ≡ ok (op, u)
    → (op ≡ new_operation c.sha256 c.seal (order_request draw tenant r o))
      × (get_by_idempotency_key c.sha256 c.seal tenant r.idempotency_key u ≡ some op)
unfolding enqueue_order_sync queued_as order_request get_by_idempotency_key
enqueue-found c draw tenant r o t op u free e =
    elim (result-cases
      (enqueue c.sha256 c.seal c.connections (order_request draw tenant r o) t t)) [
        | inr (f, failed) ↦ absurd (ground arith)
        | inl ((op', u'), made) ↦
            let a : op ≡ op' = ground arith in
            let b : u ≡ u' = ground arith in
            let (new, grown) =
              enqueue-new c.sha256 c.seal c.connections (order_request draw tenant r o) t op' u'
                free made in
            (
              a ∙ new,
              rw (b, a, grown, new)
                  (taken-new c.sha256 c.seal (order_request draw tenant r o) t free),
            )
      ]

-- A request that was queued for a key that was free, and that comes again, whatever it draws: it is
-- answered with the same order and the same operation, and nothing is written.
pub sync_order-replay :
    (c : Context) (draw draw' : Draw) (tenant : String) (r : OrderSyncRequest) (db : OrderDb)
    (o : Order) (op : Operation) (db' : OrderDb)
    → get_by_idempotency_key c.sha256 c.seal tenant r.idempotency_key db.operations ≡ none
    → sync_order c draw tenant r db ≡ ok ((o, op), db')
    → sync_order c draw' tenant r db' ≡ ok ((o, op), db')
unfolding sync_order check
sync_order-replay c draw draw' tenant r db o op db' free e =
    let (k, there, same, orders, queued') = sync_order-new c draw tenant r db o op db' free e in
    let (new, found) =
      enqueue-found c draw tenant r o db.operations op db'.operations free queued' in
    let row : find (is_external tenant r.connection_id r.external_order_id) db'.orders ≡ some o =
      rw (orders, same) (order_for-row draw.row_id tenant r db.orders) in
    let same_sync : is_same_sync op r ≡ true = rw new (same_sync-new c draw tenant r o) in
    rw
      (
        sync_order,
        there,
        found,
        check,
        same_sync,
        order_for_known draw'.row_id tenant r db'.orders o row,
      )
      refl
