-- ===== src/Stores/Operations.antt =====
-- The handlers of POI operations, of backend/poi_admin/stores/operations.py. A handler that raises
-- has changed nothing. `connect` is the rest of `ConnectionService.gateway`.
pub mod Deletion
use poi_hub.Base.{
  ℕ, String, Bool, true, false, not, Option, none, some, List, [], ◌∷◌, ◌&&◌, ◌||◌, ◌==◌, is_some,
  if◌then◌else◌,
}
use poi_hub.Base.Rows.{find, write, length}
use poi_hub.Base.Json.{Json, null, int, str, Fields, end, field, get_str}
use poi_hub.Base.Int.{pos}
use poi_hub.Base.Result.{Result, ok, err, ◌>>=◌, ◌>>◌}
use poi_hub.Connections.Model.{WeChatConnection}
use poi_hub.Connections.Ports.{terminal}
use poi_hub.Connections.Service.{get_connection}
use poi_hub.Operations.Model.{Operation}
use poi_hub.Operations.Errors.{Failure, gateway, other}
use poi_hub.Stores.Model.{Store, ServicePoi, MatchCandidate, Mapping, get_poi}
use poi_hub.Stores.Pois.{PoiResult, SyncError, service, raised, sync_pois, save_poi_result}
use poi_hub.Stores.Candidates.{CandidateScore, generate_candidates}

-- `ServicePoiGateway`
pub record PoiGateway : Type 0 where
  pub list_pois : Result Failure (List PoiResult)
  pub create_poi : Fields → Result Failure PoiResult
  pub update_poi : String → Fields → Result Failure PoiResult
  pub delete_poi : String → Result Failure Unit
  pub get_audit_status : String → Result Failure String

pub record StoreDb : Type 0 where
  pub stores : List Store
  pub pois : List ServicePoi
  pub candidates : List MatchCandidate
  pub mappings : List Mapping

abbrev pub raise : {A : Type 0} → String → String → Result Failure A
raise message code = err (gateway (terminal message code))

unfoldable pub require : {A : Type 0} → Option A → String → String → Result Failure A
require none message code = raise message code
require (some a) message code = ok a

unfoldable pub check : Bool → String → String → Result Failure Unit
check true message code = ok tt
check false message code = raise message code

-- What the handler raises for an error of the service: the gateway's error, where that is the cause.
unfoldable reraised : {A : Type 0} → Result SyncError A → Result Failure A
reraised (ok a) = ok a
reraised (err (service e (some g))) = err (gateway g)
reraised (err (service e none)) = err other
reraised (err (raised f)) = err f

is_null : Json → Bool
is_null null = true
is_null _ = false

-- the payload of an update, for the gateway
unfoldable update_payload : Fields → Fields
unfolding is_null
update_payload end = end
update_payload (field k v d) =
    let rest = update_payload d in
    if (k == "poi_id" || k == "idempotency_key") || is_null v then rest else field k v rest

abbrev pub is_poi : String → String → ServicePoi → Bool
is_poi tenant i p = p.tenant_id == tenant && p.id == i

unfoldable pub restatused : String → ℕ → ServicePoi → ServicePoi
restatused status now p = record p { remote_status = status; last_synced_at = now }

-- the row with a new status, and the time
abbrev pub save_status : String → String → String → ℕ → StoreDb → StoreDb
unfolding restatused
save_status tenant i status now db = record db {
  pois = write (is_poi tenant i) (restatused status now) db.pois;
}

-- whether the gateway has no such POI
unfoldable pub is_missing : Failure → Bool
is_missing (gateway e) = not e.retryable && e.code == "poi_not_found"
is_missing _ = false

-- The POI is gone when the gateway has deleted it, or has none.
unfoldable pub gone : Result Failure Unit → Result Failure Unit
unfolding is_missing
gone (ok x) = ok tt
gone (err e) = if is_missing e then ok tt else err e

-- the POI of an operation, which belongs to its connection
unfoldable pub poi_for : Operation → WeChatConnection → StoreDb → Result Failure ServicePoi
unfolding require check get_poi
poi_for op c db = do
  i ←
      require (get_str "poi_id" op.payload) "POI operation is missing poi_id"
        "invalid_operation_payload"
  p ← require (get_poi op.tenant_id i db.pois) "POI was not found" "poi_not_found"
  check (p.connection_id == c.id) "POI was not found" "poi_not_found"
  ok p

module _ (connections : List WeChatConnection)
    (connect : WeChatConnection → Result Failure PoiGateway) where
  unfoldable pub gateway_for : Operation → Result Failure (PoiGateway × WeChatConnection)
  unfolding require check get_connection
  gateway_for op = do
    i ← require op.connection_id "POI operation connection is missing" "connection_not_found"
    c ←
        require (get_connection op.tenant_id i connections) "POI operation connection was not found"
          "connection_not_found"
    check (c.capability == "service_poi") "Connection does not support service POIs"
        "invalid_connection"
    g ← connect c
    ok (g, c)

  unfoldable pub delete : ℕ → Operation → StoreDb → Result Failure (Fields × StoreDb)
  unfolding gateway_for poi_for gone restatused
  delete now op db = do
    (g, c) ← gateway_for op
    p ← poi_for op c db
    gone (g.delete_poi p.external_poi_id)
    ok (
      field "poi_id" (str p.id) (field "external_poi_id" (str p.external_poi_id) end),
      save_status op.tenant_id p.id "deleted" now db,
    )

  unfoldable audit_status : ℕ → Operation → StoreDb → Result Failure (Fields × StoreDb)
  unfolding gateway_for poi_for restatused
  audit_status now op db = do
    (g, c) ← gateway_for op
    p ← poi_for op c db
    status ← g.get_audit_status p.external_poi_id
    ok (
      field "poi_id" (str p.id) (field "status" (str status) end),
      save_status op.tenant_id p.id status now db,
    )

  module _ (checksum : PoiResult → String) (fold : String → String) (show : Json → String) where
    unfoldable pub create : String → ℕ → Operation → StoreDb → Result Failure (Fields × StoreDb)
    unfolding gateway_for reraised save_poi_result
    create poi_id now op db = do
      (g, c) ← gateway_for op
      r ← g.create_poi op.payload
      (p, pois) ← reraised (save_poi_result checksum fold show poi_id now op.tenant_id c r db.pois)
      ok (
        field "poi_id" (str p.id) (field "external_poi_id" (str p.external_poi_id) end),
        record db { pois = pois },
      )

    unfoldable pub update : String → ℕ → Operation → StoreDb → Result Failure (Fields × StoreDb)
    unfolding gateway_for poi_for reraised save_poi_result update_payload
    update poi_id now op db = do
      (g, c) ← gateway_for op
      p ← poi_for op c db
      r ← g.update_poi p.external_poi_id (update_payload op.payload)
      (q, pois) ← reraised (save_poi_result checksum fold show poi_id now op.tenant_id c r db.pois)
      ok (
        field "poi_id" (str q.id) (field "external_poi_id" (str q.external_poi_id) end),
        record db { pois = pois },
      )

    module _ (score : Store → ServicePoi → CandidateScore) where
      -- `mock` is the answer of the mock gateway, which is not asked here.
      unfoldable synchronize :
          (ℕ → String)
          → (String → String → String)
          → ℕ
          → Result Failure (List PoiResult)
          → Operation
          → StoreDb
          → Result Failure (Fields × StoreDb)
      unfolding gateway_for reraised sync_pois generate_candidates
      synchronize poi_id candidate_id now mock op db = do
        (g, c) ← gateway_for op
        (ids, pois) ←
            reraised (
              sync_pois checksum fold show poi_id now op.tenant_id c (some g.list_pois) mock
                db.pois)
        let (suggested, candidates) =
            generate_candidates score candidate_id now op.tenant_id c.id db.mappings db.stores pois
              db.candidates
        ok (
          field "poi_count" (int (pos (length ids)))
              (field "candidate_count" (int (pos (length suggested))) end),
          record db { pois = pois; candidates = candidates },
        )
