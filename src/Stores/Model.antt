-- ===== src/Stores/Model.antt =====
-- The rows of backend/poi_admin/stores/models.py, and the errors of the store service.
use poi_hub.Base.{ℕ, String, Bool, true, false, Option, none, some, List, ◌&&◌, ◌==◌}
use poi_hub.Base.Rows.{find}
use poi_hub.Base.Int.{ℤ}
use poi_hub.Base.Json.{Fields, get_str}
use poi_hub.Base.Result.{Result, ok, err}

-- `Store`. `columns` holds the columns that an editor can change (code, name, contact_name,
-- contact_phone_masked, province, city, district, address, latitude, longitude, status), by name.
pub record Store : Type 0 where
  pub id : String
  pub tenant_id : String
  pub columns : Fields
  pub version : ℕ

-- `ServicePoi`; a coordinate is a number of millionths of a degree
pub record ServicePoi : Type 0 where
  pub id : String
  pub tenant_id : String
  pub connection_id : String
  pub external_poi_id : String
  pub name : String
  pub address : String
  pub latitude : Option ℤ
  pub longitude : Option ℤ
  pub remote_status : String
  pub category : Option String
  pub qualification_summary : Option Fields
  pub raw_checksum : String
  pub last_synced_at : ℕ

-- `MatchCandidate`; a score is a number of millionths, a distance one of millimetres
pub record MatchCandidate : Type 0 where
  pub id : String
  pub tenant_id : String
  pub connection_id : String
  pub store_id : String
  pub service_poi_id : String
  pub total_score : ℕ
  pub name_score : ℕ
  pub address_score : ℕ
  pub distance_score : ℕ
  pub distance_meters : Option ℕ
  pub evidence : Fields
  pub generated_at : ℕ
  pub dismissed_at : Option ℕ
  pub dismissed_by_user_id : Option String

pub data MappingState : Type 0 where
  active unbound : MappingState

-- `StorePoiMapping`
pub record Mapping : Type 0 where
  pub id : String
  pub tenant_id : String
  pub connection_id : String
  pub store_id : String
  pub service_poi_id : String
  pub state : MappingState
  pub match_score : Option ℕ
  pub match_evidence : Fields
  pub confirmed_by_user_id : String
  pub confirmed_at : ℕ
  pub unbound_by_user_id : Option String
  pub unbound_at : Option ℕ

-- `StoreServiceError` by its code and status
pub record StoreError : Type 0 where
  pub code : String
  pub status_code : ℕ

abbrev pub refuse : {A : Type 0} → String → ℕ → Result StoreError A
refuse code status = err (record { code = code; status_code = status })

unfoldable pub require : {A : Type 0} → Option A → String → ℕ → Result StoreError A
require none code status = refuse code status
require (some a) code status = ok a

unfoldable pub check : Bool → String → ℕ → Result StoreError Unit
check true code status = ok tt
check false code status = refuse code status

abbrev pub is_store : String → String → Store → Bool
is_store tenant i s = s.tenant_id == tenant && s.id == i

unfoldable pub get_store : String → String → List Store → Option Store
get_store tenant i stores = find (is_store tenant i) stores

unfoldable pub get_poi : String → String → List ServicePoi → Option ServicePoi
get_poi tenant i pois = find (λ p. p.tenant_id == tenant && p.id == i) pois

unfoldable pub get_candidate : String → String → List MatchCandidate → Option MatchCandidate
get_candidate tenant i rows = find (λ c. c.tenant_id == tenant && c.id == i) rows

abbrev pub is_active : MappingState → Bool
is_active active = true
is_active unbound = false

-- the code of a store, which is unique within its tenant
abbrev pub code_of : Store → Option String
code_of s = get_str "code" s.columns
