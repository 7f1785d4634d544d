-- ===== src/LocalLife/Tests/Vouchers.antt =====
-- Runs of the vouchers of backend/poi_admin/local_life on concrete rows.
use poi_hub.Base.{◌≡◌, refl, none, some, [], ◌∷◌}
use poi_hub.Base.Result.{ok, err, ok_or}
use poi_hub.Base.Json.{str, Fields, end, field}
use poi_hub.Connections.Crypto.{is_sensitive, redact_secrets}
use poi_hub.Operations.Model.{Operation}
use poi_hub.Operations.Errors.{timeout}
use poi_hub.Stores.Model.{Store, Mapping}
use poi_hub.LocalLife.Vouchers.Model.{Voucher, VoucherDb, VoucherResult}
use poi_hub.LocalLife.Vouchers.Model
use poi_hub.LocalLife.Vouchers.Service.{enqueue_consume}
use poi_hub.LocalLife.Vouchers.Service.Replay.{enqueue_consume-replay}
use poi_hub.LocalLife.Vouchers.Handlers.{VoucherGateway, consume, revoke}
use poi_hub.LocalLife.Vouchers.Handlers.Outcomes.{
  Consumed, Revoked, consume-Consumed, revoke-Revoked,
}
use poi_hub.LocalLife.Tests.{connection, context, draw, blank, free_key}

abbrev voucher : Voucher
voucher = record {
  id = "v";
  tenant_id = "t";
  connection_id = "c";
  order_id = none;
  external_voucher_id = "code-1";
  code_ciphertext = none;
  external_product_id = none;
  external_sku_id = some "es-1";
  code_masked = "**-1";
  state = "available";
  valid_from = none;
  valid_until = none;
  consume_store_id = none;
  last_consume_request_no = none;
  consumed_at = none;
  revoked_at = none;
  raw_summary = end;
  last_synced_at = none;
}

abbrev used : Voucher
used = record voucher {
  state = "consumed";
  consume_store_id = some "A1";
  last_consume_request_no = some "n-1";
}

abbrev store : Store
store = record {
  id = "s";
  tenant_id = "t";
  columns = field "code" (str "A1") (field "name" (str "Shop") (field "status" (str "active") end));
  version = 1;
}

abbrev mapping : Mapping
mapping = record {
  id = "m";
  tenant_id = "t";
  connection_id = "c";
  store_id = "s";
  service_poi_id = "p";
  state = poi_hub.Stores.Model.active;
  match_score = none;
  match_evidence = end;
  confirmed_by_user_id = "u";
  confirmed_at = 10;
  unbound_by_user_id = none;
  unbound_at = none;
}

abbrev vouchers : Voucher → VoucherDb
vouchers v = record {
  vouchers = v ∷ [];
  stores = store ∷ [];
  mappings = mapping ∷ [];
  operations = [];
}

abbrev consuming : Operation × VoucherDb
consuming =
    ok_or (enqueue_consume context draw "t" "v" "s" "k-1" none (vouchers voucher))
      (blank, vouchers voucher)

queue_consume :
    enqueue_consume context draw "t" "v" "s" "k-1" none (vouchers voucher)
    ≡ ok (consuming.0, consuming.1)
unfolding enqueue_consume is_sensitive redact_secrets
queue_consume = refl

enqueue_consume-replay_example :
    enqueue_consume context draw "t" "v" "s" "k-1" none consuming.1
    ≡ err (Model.service "idempotency_key_conflict" 409)
enqueue_consume-replay_example =
    enqueue_consume-replay context draw draw "t" "v" "s" "k-1" none (vouchers voucher) consuming.0
      consuming.1 refl free_key queue_consume

abbrev at_store : VoucherResult
at_store = record {
  external_id = "code-1";
  state = "consumed";
  product_id = none;
  consume_store_id = some "A1";
  raw = end;
}

abbrev available : VoucherResult
available = record at_store { state = "available"; consume_store_id = none }

-- The calls time out, and the gateway tells afterwards that they have happened.
abbrev silent : VoucherResult → VoucherGateway
silent r = record {
  consume_voucher = λ code sku request shop name reserve. err timeout;
  revoke_consumption = λ code sku request consumption. err timeout;
  get_voucher = λ code sku. ok r;
}

abbrev consume_op : Operation
consume_op = record blank {
  payload =
      field "voucher_id" (str "v")
        (field "out_store_id" (str "A1") (field "consume_request_no" (str "n-1") end));
}

abbrev revoke_op : Operation
revoke_op = record blank {
  payload = field "voucher_id" (str "v") (field "revoke_request_no" (str "n-2") end);
}

abbrev consumed_db : Fields × VoucherDb
consumed_db =
    ok_or
      (consume (connection ∷ []) (λ i. ok (silent at_store)) none consume_op 300 (vouchers voucher))
      (end, vouchers voucher)

run_consume :
    consume (connection ∷ []) (λ i. ok (silent at_store)) none consume_op 300 (vouchers voucher)
    ≡ ok (consumed_db.0, consumed_db.1)
unfolding consume
run_consume = refl

consume-Consumed_example :
    Consumed
      (connection ∷ [])
      (λ i. ok (silent at_store))
      none
      consume_op
      300
      (vouchers voucher)
      consumed_db.0
      consumed_db.1
consume-Consumed_example =
    consume-Consumed (connection ∷ []) (λ i. ok (silent at_store)) none consume_op 300
      (vouchers voucher) consumed_db.0 consumed_db.1 run_consume

abbrev revoked_db : Fields × VoucherDb
revoked_db =
    ok_or (revoke (connection ∷ []) (λ i. ok (silent available)) none revoke_op 300 (vouchers used))
      (end, vouchers used)

run_revoke :
    revoke (connection ∷ []) (λ i. ok (silent available)) none revoke_op 300 (vouchers used)
    ≡ ok (revoked_db.0, revoked_db.1)
unfolding revoke
run_revoke = refl

revoke-Revoked_example :
    Revoked
      (connection ∷ [])
      (λ i. ok (silent available))
      none
      revoke_op
      300
      (vouchers used)
      revoked_db.0
      revoked_db.1
revoke-Revoked_example =
    revoke-Revoked (connection ∷ []) (λ i. ok (silent available)) none revoke_op 300 (vouchers used)
      revoked_db.0 revoked_db.1 run_revoke
