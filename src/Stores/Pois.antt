-- ===== src/Stores/Pois.antt =====
-- `save_poi_result` and `sync_pois` of backend/poi_admin/stores/service.py. A call reads the clock
-- once. `checksum` is the digest of a result's JSON text, `fold` is `str.casefold` and `show` is
-- `str` of a JSON value.

pub mod Entries
pub mod Written
pub mod Listing
use poi_hub.Base.{
  ℕ, suc, String, Bool, true, false, not, Option, none, some, List, [], ◌∷◌, ◌++◌, ◌&&◌, ◌||◌, ◌==◌,
  if◌then◌else◌, ◌+◌, eqb,
}
use poi_hub.Base.Rows.{find, any, update, write, select, length}
use poi_hub.Base.Text.{codes, starts_with, strip_text}
use poi_hub.Base.Json.{Json, obj, Fields, get, is_truthy}
use poi_hub.Base.Int.{ℤ}
use poi_hub.Base.Result.{Result, ok, err, ◌>>=◌, ◌>>◌}
use poi_hub.Connections.Model.{WeChatConnection}
use poi_hub.Connections.Ports.{GatewayError}
use poi_hub.Operations.Errors.{Failure, gateway}
use poi_hub.Stores.Model.{ServicePoi, StoreError}

-- `PoiResult`
pub record PoiResult : Type 0 where
  pub poi_id : String
  pub name : String
  pub address : String
  pub latitude : Option ℤ
  pub longitude : Option ℤ
  pub status : String
  pub raw : Fields

-- `StoreServiceError`, with the error of the gateway as its cause if it has one, and any other
-- exception
pub data SyncError : Type 0 where
  service : StoreError → Option GatewayError → SyncError
  raised : Failure → SyncError

abbrev pub refused : {A : Type 0} → String → ℕ → Result SyncError A
refused code status = err (service (record { code = code; status_code = status }) none)

unfoldable pub check : Bool → String → ℕ → Result SyncError Unit
check true code status = ok tt
check false code status = refused code status

-- a row of the connection
abbrev pub of_connection : String → String → ServicePoi → Bool
of_connection tenant c p = p.tenant_id == tenant && p.connection_id == c

-- the key of `uq_poi_remote_id`
unfoldable pub is_remote : String → String → String → ServicePoi → Bool
is_remote tenant c external p = of_connection tenant c p && p.external_poi_id == external

-- `external_poi_id.startswith("audit:")`
unfoldable pub is_audit : String → Bool
unfolding starts_with
is_audit s = starts_with (codes "audit:") (codes s)

-- `external_poi_id.startswith(("audit:", "map:"))`
unfoldable pub is_provisional : String → Bool
unfolding starts_with is_audit
is_provisional s = is_audit s || starts_with (codes "map:") (codes s)

unfoldable pub dict_of : Option Json → Option Fields
dict_of (some (obj d)) = some d
dict_of _ = none

-- The answer of a gateway with the mock gateway's, when none is given.
unfoldable pub listed_by :
    WeChatConnection
    → Option (Result Failure (List PoiResult))
    → Result Failure (List PoiResult)
    → Result SyncError (Result Failure (List PoiResult))
listed_by c (some answer) mock = ok answer
listed_by c none mock = if c.mode == "mock" then ok mock else refused "live_gateway_required" 503

-- A gateway's error becomes the service's, with the gateway's as its cause.
unfoldable pub list_pois : Result Failure (List PoiResult) → Result SyncError (List PoiResult)
list_pois (ok remotes) = ok remotes
list_pois (err (gateway e)) =
    err
      (service (record { code = e.code; status_code = if e.retryable then 503 else 422 }) (some e))
list_pois (err e) = err (raised e)

-- `str(raw.get("category")) if raw.get("category") else None`
unfoldable pub category_of : (Json → String) → Option Json → Option String
unfolding is_truthy
category_of show none = none
category_of show (some v) = if is_truthy v then some (show v) else none

-- a row that the gateway does not list any more, unless its remote id is provisional
unfoldable pub is_stale : String → String → List PoiResult → ServicePoi → Bool
unfolding is_provisional
is_stale tenant c remotes p =
    of_connection tenant c p
    && not (any (λ r. r.poi_id == p.external_poi_id) remotes)
    && not (is_provisional p.external_poi_id)

unfoldable pub marked : ℕ → ServicePoi → ServicePoi
marked now p = record p { remote_status = "deleted"; last_synced_at = now }

unfoldable pub mark_stale : ℕ → String → String → List PoiResult → List ServicePoi → List ServicePoi
unfolding is_stale marked
mark_stale now tenant c remotes table = update (is_stale tenant c remotes) (marked now) table

module _ (checksum : PoiResult → String) (fold : String → String) (show : Json → String) where
  -- the columns that a result writes
  unfoldable pub refreshed : ℕ → PoiResult → ServicePoi → ServicePoi
  unfolding category_of dict_of
  refreshed now r p = record p {
    name = r.name;
    address = r.address;
    latitude = r.latitude;
    longitude = r.longitude;
    remote_status = r.status;
    category = category_of show (get "category" r.raw);
    qualification_summary = dict_of (get "qualification_summary" r.raw);
    raw_checksum = checksum r;
    last_synced_at = now;
  }

  unfoldable pub new_poi : String → String → String → ℕ → PoiResult → ServicePoi
  new_poi i tenant c now r = record {
    id = i;
    tenant_id = tenant;
    connection_id = c;
    external_poi_id = r.poi_id;
    name = r.name;
    address = r.address;
    latitude = none;
    longitude = none;
    remote_status = r.status;
    category = none;
    qualification_summary = none;
    raw_checksum = checksum r;
    last_synced_at = now;
  }

  -- `i` is the id of a new row.
  unfoldable pub save_poi_result :
      String
      → ℕ
      → String
      → WeChatConnection
      → PoiResult
      → List ServicePoi
      → Result SyncError (ServicePoi × List ServicePoi)
  unfolding check is_remote refreshed new_poi
  save_poi_result i now tenant c r table = do
    check (c.tenant_id == tenant) "connection_not_found" 404
    elim (find (is_remote tenant c.id r.poi_id) table) [
      | some p ↦
          ok (refreshed now r p, write (is_remote tenant c.id r.poi_id) (refreshed now r) table)
      | none ↦ let p = refreshed now r (new_poi i tenant c.id now r) in ok (p, table ++ p ∷ [])
    ]

  -- `value.strip().casefold()` of both
  unfoldable same_folded : String → String → Bool
  unfolding strip_text
  same_folded a b = fold (strip_text a) == fold (strip_text b)

  -- a row that waits for its audit, among those that the sync has read first
  unfoldable pub is_pending : String → String → List ServicePoi → PoiResult → ServicePoi → Bool
  unfolding is_audit same_folded
  is_pending tenant c existing r p =
      of_connection tenant c p
      && any (λ e. e.id == p.id) existing
      && is_audit p.external_poi_id
      && same_folded p.name r.name
      && same_folded p.address r.address

  unfoldable pub identified : ℕ → PoiResult → ServicePoi → ServicePoi
  unfolding refreshed
  identified now r p = refreshed now r (record p { external_poi_id = r.poi_id })

  -- One result of the gateway: the row that it is written to, by its id, and the table.
  unfoldable pub sync_one :
      String
      → ℕ
      → String
      → String
      → List ServicePoi
      → PoiResult
      → List ServicePoi
      → String × List ServicePoi
  unfolding is_remote is_pending refreshed identified new_poi
  sync_one i now tenant c existing r table =
      let pending = select (is_pending tenant c existing r) table in
      elim (find (is_remote tenant c r.poi_id) table) [
        | some p ↦ (p.id, write (is_remote tenant c r.poi_id) (refreshed now r) table)
        | none ↦ elim pending [
          | p ∷ [] ↦ (p.id, write (is_pending tenant c existing r) (identified now r) table)
          | _ ↦ (i, table ++ refreshed now r (new_poi i tenant c now r) ∷ [])
        ]
      ]

  -- the results in their order; `new_id n` is the id that the n-th of them draws
  unfoldable pub sync_all :
      (ℕ → String)
      → ℕ
      → ℕ
      → String
      → String
      → List ServicePoi
      → List PoiResult
      → List ServicePoi
      → List String × List ServicePoi
  unfolding sync_one
  sync_all new_id n now tenant c existing [] table = ([], table)
  sync_all new_id n now tenant c existing (r ∷ rs) table =
      let (i, table') = sync_one (new_id n) now tenant c existing r table in
      let (is, table'') = sync_all new_id (suc n) now tenant c existing rs table' in
      (i ∷ is, table'')

  -- The rows that were written, by their ids, and the table.
  unfoldable pub sync_pois :
      (ℕ → String)
      → ℕ
      → String
      → WeChatConnection
      → Option (Result Failure (List PoiResult))
      → Result Failure (List PoiResult)
      → List ServicePoi
      → Result SyncError (List String × List ServicePoi)
  unfolding check listed_by list_pois sync_all mark_stale
  sync_pois new_id now tenant c given mock table = do
    check (c.tenant_id == tenant) "connection_not_found" 404
    check (c.capability == "service_poi") "invalid_connection" 422
    answer ← listed_by c given mock
    remotes ← list_pois answer
    ok (
        sync_all new_id 0 now tenant c.id (select (of_connection tenant c.id) table) remotes
          (mark_stale now tenant c.id remotes table))
