-- ===== src/LocalLife/Vouchers/Service/Replay.antt =====
-- A request for a voucher that comes again, of backend/poi_admin/local_life/vouchers.py.
use poi_hub.Base.{
  String, ◌≡◌, refl, ◌∙◌, false, not, Option, none, some, List, [], ◌∷◌, ◌++◌, ◌==◌, arith, eq_iff,
  eq_refl,
}
use poi_hub.Base.Result.{Result, ok, err, after_ok}
use poi_hub.Base.Rows.Laws.{find-append}
use poi_hub.Base.Json.{str, Fields, get}
use poi_hub.Connections.Crypto.{is_sensitive, redact_secrets}
use poi_hub.Operations.Model.{Operation, has_key}
use poi_hub.Operations.Enqueue.{
  EnqueueRequest, OperationError, enqueue, new_operation, get_by_idempotency_key,
}
use poi_hub.Operations.Enqueue.Idempotent.{enqueue-new}
use poi_hub.LocalLife.Products.Service.{Context, Draw}
use poi_hub.LocalLife.Vouchers.Model.{Voucher, VoucherDb, service, get_voucher}
use poi_hub.LocalLife.Vouchers.Service.{
  consume_voucher_command, require, check, mapped_store, has_value, text_or_empty, voucher_payload,
  voucher_request, enqueue_voucher, consume_new, enqueue_consume, revoke_store,
  revoke_voucher_command, revoke_new, enqueue_revoke,
}

abbrev hidden : String
hidden = "[REDACTED]"

-- the operation that stands under the key hides the voucher
abbrev Hides : Context → String → String → VoucherDb → Type 0
Hides c tenant key db =
    (op : Operation) × (get_by_idempotency_key c.sha256 c.seal tenant key db.operations ≡ some op)
    × (get "voucher_id" op.payload ≡ some (str hidden))

request-hides :
    (c : Context) (draw : Draw) (tenant command key : String) (v : Voucher) (rest : Fields)
    → get "voucher_id"
        (new_operation c.sha256 c.seal
          (voucher_request draw tenant command key (voucher_payload v rest) v)).payload
      ≡ some (str hidden)
unfolding new_operation redact_secrets is_sensitive voucher_request
request-hides c draw tenant command key v rest = refl

request-found :
    (c : Context) (r : EnqueueRequest) (t : List Operation)
    → get_by_idempotency_key c.sha256 c.seal r.tenant_id r.idempotency_key t ≡ none
    → get_by_idempotency_key c.sha256 c.seal r.tenant_id r.idempotency_key
        (t ++ new_operation c.sha256 c.seal r ∷ [])
      ≡ some (new_operation c.sha256 c.seal r)
unfolding new_operation get_by_idempotency_key
request-found c r t free =
    rw
      (
        find-append (has_key r.tenant_id (c.sha256 r.idempotency_key)) t
            (new_operation c.sha256 c.seal r),
        free,
        eq_refl r.tenant_id,
        eq_refl (c.sha256 r.idempotency_key),
      )
      refl

queued-found :
    (c : Context) (r : EnqueueRequest) (db : VoucherDb) (op : Operation) (db' : VoucherDb)
    → get_by_idempotency_key c.sha256 c.seal r.tenant_id r.idempotency_key db.operations ≡ none
    → enqueue_voucher c r db ≡ ok (op, db')
    → get_by_idempotency_key c.sha256 c.seal r.tenant_id r.idempotency_key db'.operations
      ≡ some (new_operation c.sha256 c.seal r)
unfolding enqueue_voucher
queued-found c r db op db' free e =
    steps (enqueue c.sha256 c.seal c.connections r db.operations db.operations) refl
  where
    steps :
        (x : Result OperationError (Operation × List Operation))
        → enqueue c.sha256 c.seal c.connections r db.operations db.operations ≡ x
        → get_by_idempotency_key c.sha256 c.seal r.tenant_id r.idempotency_key db'.operations
          ≡ some (new_operation c.sha256 c.seal r)
    steps (ok (o, u)) added =
        let grown =
          enqueue-new c.sha256 c.seal c.connections r db.operations o u
            (unfold get_by_idempotency_key in free) added in
        let same : db'.operations ≡ u = ground arith in
        rw (same ∙ grown.1) (request-found c r db.operations free)
    steps (err x) failed = absurd (ground arith)

queued-Hides :
    (c : Context) (draw : Draw) (tenant command key : String) (v : Voucher) (rest : Fields)
    (db : VoucherDb) (op : Operation) (db' : VoucherDb)
    → get_by_idempotency_key c.sha256 c.seal tenant key db.operations ≡ none
    → enqueue_voucher c (voucher_request draw tenant command key (voucher_payload v rest) v) db
      ≡ ok (op, db')
    → Hides c tenant key db'
unfolding voucher_request
queued-Hides c draw tenant command key v rest db op db' free e = (
  _,
  queued-found c (voucher_request draw tenant command key (voucher_payload v rest) v) db op db' free
      e,
  request-hides c draw tenant command key v rest,
)

consume-Hides :
    (c : Context) (draw : Draw) (tenant i store key : String) (reserve_no : Option String)
    (db : VoucherDb) (op : Operation) (db' : VoucherDb)
    → get_by_idempotency_key c.sha256 c.seal tenant key db.operations ≡ none
    → consume_new c draw tenant i store key reserve_no db ≡ ok (op, db')
    → Hides c tenant key db'
unfolding consume_new
consume-Hides c draw tenant i store key reserve_no db op db' free e =
    after_ok (require (get_voucher tenant i db) "voucher_not_found" 404) _ (op, db')
      (Hides c tenant key db')
      (λ v there e1.
        after_ok (check (v.state == "available") "voucher_state" 409) _ (op, db')
          (Hides c tenant key db')
          (λ x1 fits e2.
            after_ok (mapped_store tenant store db) _ (op, db') (Hides c tenant key db')
              (λ s mapped e3.
                after_ok
                  (check (not (text_or_empty v.external_sku_id == "")) "voucher_sku_missing" 409) _
                  (op, db') (Hides c tenant key db')
                  (λ x2 has_sku e4.
                    queued-Hides c draw tenant consume_voucher_command key v _ db op db' free e4)
                  e3)
              e2)
          e1)
      e

revoke-Hides :
    (c : Context) (draw : Draw) (tenant i key : String) (store : Option String) (db : VoucherDb)
    (op : Operation) (db' : VoucherDb)
    → get_by_idempotency_key c.sha256 c.seal tenant key db.operations ≡ none
    → revoke_new c draw tenant i key store db ≡ ok (op, db')
    → Hides c tenant key db'
unfolding revoke_new
revoke-Hides c draw tenant i key store db op db' free e =
    after_ok (require (get_voucher tenant i db) "voucher_not_found" 404) _ (op, db')
      (Hides c tenant key db')
      (λ v there e1.
        after_ok (check (v.state == "consumed") "voucher_state" 409) _ (op, db')
          (Hides c tenant key db')
          (λ x1 fits e2.
            after_ok (revoke_store tenant v store db) _ (op, db') (Hides c tenant key db')
              (λ s mapped e3.
                queued-Hides c draw tenant revoke_voucher_command key v _ db op db' free e3)
              e2)
          e1)
      e

-- An accepted request to consume a voucher cannot be repeated: under the key that was free, the same
-- request again is refused as a conflict, unless the voucher's id is the redaction's marker.
pub enqueue_consume-replay :
    (c : Context) (draw draw' : Draw) (tenant i store key : String) (reserve_no : Option String)
    (db : VoucherDb) (op : Operation) (db' : VoucherDb)
    → i == "[REDACTED]" ≡ false
    → get_by_idempotency_key c.sha256 c.seal tenant key db.operations ≡ none
    → enqueue_consume c draw tenant i store key reserve_no db ≡ ok (op, db')
    → enqueue_consume c draw' tenant i store key reserve_no db'
      ≡ err (service "idempotency_key_conflict" 409)
unfolding enqueue_consume check has_value
enqueue_consume-replay c draw draw' tenant i store key reserve_no db op db' other free e =
    let added : consume_new c draw tenant i store key reserve_no db ≡ ok (op, db') = ground arith in
    let (o, stands, hides) =
      consume-Hides c draw tenant i store key reserve_no db op db' free added in
    rw (stands, enqueue_consume)
      (rw (hides, has_value) (ground (arith, eq_iff "[REDACTED]" i, eq_iff i "[REDACTED]")))

-- An accepted request to revoke a consumption cannot be repeated either: under the key that was free,
-- the same request again is refused as a conflict, unless the voucher's id is the redaction's marker.
pub enqueue_revoke-replay :
    (c : Context) (draw draw' : Draw) (tenant i key : String) (store : Option String)
    (db : VoucherDb) (op : Operation) (db' : VoucherDb)
    → i == "[REDACTED]" ≡ false
    → get_by_idempotency_key c.sha256 c.seal tenant key db.operations ≡ none
    → enqueue_revoke c draw tenant i key store db ≡ ok (op, db')
    → enqueue_revoke c draw' tenant i key store db' ≡ err (service "idempotency_key_conflict" 409)
unfolding enqueue_revoke check has_value
enqueue_revoke-replay c draw draw' tenant i key store db op db' other free e =
    let added : revoke_new c draw tenant i key store db ≡ ok (op, db') = ground arith in
    let (o, stands, hides) = revoke-Hides c draw tenant i key store db op db' free added in
    rw (stands, enqueue_revoke)
      (rw (hides, has_value) (ground (arith, eq_iff "[REDACTED]" i, eq_iff i "[REDACTED]")))
