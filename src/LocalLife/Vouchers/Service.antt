-- ===== src/LocalLife/Vouchers/Service.antt =====
-- `VoucherService.enqueue_consume` and `enqueue_revoke` of backend/poi_admin/local_life/vouchers.py.
pub mod Replay
use poi_hub.Base.{
  ℕ, String, ◌+◌, Bool, true, false, not, Option, none, some, List, [], ◌∷◌, ◌&&◌, ◌||◌, ◌==◌,
  opt_eq, is_some, if◌then◌else◌,
}
use poi_hub.Base.Text.{concat}
use poi_hub.Base.Result.{Result, ok, err, ◌>>=◌, ◌>>◌}
use poi_hub.Base.Rows.{find, any, select}
use poi_hub.Base.Json.{Json, null, str, Fields, end, field, get, get_str}
use poi_hub.Operations.Model.{Operation}
use poi_hub.Operations.Enqueue.{Connection, EnqueueRequest, enqueue, get_by_idempotency_key}
use poi_hub.Stores.Model.{Store, is_store, code_of}
use poi_hub.Stores.Mappings.{maps_store}
use poi_hub.LocalLife.Products.Service.{Context, Draw}
use poi_hub.LocalLife.Vouchers.Model.{
  Voucher, VoucherDb, VoucherError, service, queue, multiple_results, get_voucher,
}

abbrev pub consume_voucher_command : String
consume_voucher_command = "local_life.voucher.consume"

abbrev pub revoke_voucher_command : String
revoke_voucher_command = "local_life.voucher.revoke"

unfoldable pub require : {A : Type 0} → Option A → String → ℕ → Result VoucherError A
require none code status = err (service code status)
require (some a) code status = ok a

unfoldable pub check : Bool → String → ℕ → Result VoucherError Unit
check true code status = ok tt
check false code status = err (service code status)

-- `_mapped_store`: one row for each active mapping of the active store
unfoldable pub mapped_store : String → String → VoucherDb → Result VoucherError Store
unfolding maps_store
mapped_store tenant i db = elim (find (is_store tenant i) db.stores) [
  | none ↦ err (service "store_mapping_required" 409)
  | some s ↦
      if not (opt_eq (get_str "status" s.columns) (some "active"))
      then err (service "store_mapping_required" 409)
      else elim (select (maps_store tenant i) db.mappings) [
        | [] ↦ err (service "store_mapping_required" 409)
        | m ∷ [] ↦ ok s
        | m ∷ n ∷ rest ↦ err multiple_results
      ]
]

abbrev pub or_null : Option String → Json
or_null none = null
or_null (some s) = str s

-- `payload.get(k) == value`
unfoldable pub has_value : String → Option String → Fields → Bool
has_value k value d = elim (get k d) [
  | none ↦ not (is_some value)
  | some null ↦ not (is_some value)
  | some (str s) ↦ opt_eq (some s) value
  | some other ↦ false
]

-- `_request_no`
unfoldable request_no : (String → String) → String → String → String → String
unfolding concat
request_no sha256 prefix tenant key =
    concat prefix (concat "-" (sha256 (concat tenant (concat "\0" key))))

abbrev pub text_or_empty : Option String → String
text_or_empty none = ""
text_or_empty (some s) = s

-- the payload of both operations up to the store
abbrev pub voucher_payload : Voucher → Fields → Fields
voucher_payload v rest = field "entity_id" (str v.id) (
    field "external_id" (str v.external_voucher_id) (
      field "voucher_id" (str v.id) (field "external_voucher_id" (str v.external_voucher_id) rest)))

abbrev pub voucher_request : Draw → String → String → String → Fields → Voucher → EnqueueRequest
unfolding concat
voucher_request draw tenant command key payload v = record {
  tenant_id = tenant;
  command_type = command;
  idempotency_key = key;
  payload = payload;
  connection_id = some v.connection_id;
  resource_ref = some (concat "local_voucher:" v.id);
  max_attempts = 8;
  new_id = draw.new_id;
  now = draw.now;
}

unfoldable pub enqueue_voucher :
    Context → EnqueueRequest → VoucherDb → Result VoucherError (Operation × VoucherDb)
unfolding enqueue
enqueue_voucher c r db =
    elim (enqueue c.sha256 c.seal c.connections r db.operations db.operations) [
      | ok (op, operations) ↦ ok (op, record db { operations = operations })
      | err e ↦ err (queue e)
    ]

abbrev pub column : Option String → Json
column none = null
column (some s) = str s

unfoldable pub consume_new :
    Context
    → Draw
    → String
    → String
    → String
    → String
    → Option String
    → VoucherDb
    → Result VoucherError (Operation × VoucherDb)
unfolding require check get_voucher mapped_store request_no enqueue_voucher
consume_new c draw tenant i store key reserve_no db = do
  v ← require (get_voucher tenant i db) "voucher_not_found" 404
  check (v.state == "available") "voucher_state" 409
  s ← mapped_store tenant store db
  check (not (text_or_empty v.external_sku_id == "")) "voucher_sku_missing" 409
  enqueue_voucher c
      (voucher_request draw tenant consume_voucher_command key
        (voucher_payload v (
          field "store_id" (str s.id) (
            field "out_store_id" (column (code_of s)) (
              field "consume_store_name" (column (get_str "name" s.columns)) (
                field "consume_request_no" (str (request_no c.sha256 "consume" tenant key))
                  (field "reserve_no" (or_null reserve_no) end))))))
        v)
      db

unfoldable pub enqueue_consume :
    Context
    → Draw
    → String
    → String
    → String
    → String
    → Option String
    → VoucherDb
    → Result VoucherError (Operation × VoucherDb)
unfolding get_by_idempotency_key check has_value consume_new
enqueue_consume c draw tenant i store key reserve_no db =
    elim (get_by_idempotency_key c.sha256 c.seal tenant key db.operations) [
      | some op ↦ do
        check
            (op.command_type == consume_voucher_command
              && has_value "voucher_id" (some i) op.payload
              && has_value "store_id" (some store) op.payload
              && has_value "reserve_no" reserve_no op.payload)
            "idempotency_key_conflict" 409
        ok (op, db)
      | none ↦ consume_new c draw tenant i store key reserve_no db
    ]

-- the code of the store that the caller names, else that of the consumption
unfoldable pub revoke_store :
    String → Voucher → Option String → VoucherDb → Result VoucherError (Option String)
unfolding mapped_store
revoke_store tenant v none db = ok v.consume_store_id
revoke_store tenant v (some store) db = do s ← mapped_store tenant store db; ok (code_of s)

unfoldable pub revoke_new :
    Context
    → Draw
    → String
    → String
    → String
    → Option String
    → VoucherDb
    → Result VoucherError (Operation × VoucherDb)
unfolding require check get_voucher revoke_store request_no enqueue_voucher
revoke_new c draw tenant i key store db = do
  v ← require (get_voucher tenant i db) "voucher_not_found" 404
  check (v.state == "consumed") "voucher_state" 409
  out_store ← revoke_store tenant v store db
  enqueue_voucher c
      (voucher_request draw tenant revoke_voucher_command key
        (voucher_payload v (
          field "store_id" (or_null store) (
            field "out_store_id" (or_null out_store) (
              field "revoke_request_no" (str (request_no c.sha256 "revoke" tenant key))
                (field "consume_request_no" (or_null v.last_consume_request_no) end)))))
        v)
      db

unfoldable pub enqueue_revoke :
    Context
    → Draw
    → String
    → String
    → String
    → Option String
    → VoucherDb
    → Result VoucherError (Operation × VoucherDb)
unfolding get_by_idempotency_key check has_value revoke_new
enqueue_revoke c draw tenant i key store db =
    elim (get_by_idempotency_key c.sha256 c.seal tenant key db.operations) [
      | some op ↦ do
        check
            (op.command_type == revoke_voucher_command
              && has_value "voucher_id" (some i) op.payload
              && has_value "store_id" store op.payload)
            "idempotency_key_conflict" 409
        ok (op, db)
      | none ↦ revoke_new c draw tenant i key store db
    ]
