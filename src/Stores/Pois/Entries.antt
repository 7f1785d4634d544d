-- ===== src/Stores/Pois/Entries.antt =====
-- What the rows of a connection list, of backend/poi_admin/stores/service.py.
use poi_hub.Base.{ℕ, String, not, Option, none, some, List, [], ◌∷◌, ◌&&◌, ◌==◌, if◌then◌else◌}
use poi_hub.Base.Rows.{find, any}
use poi_hub.Base.Int.{ℤ}
use poi_hub.Base.Json.{Json, Fields, get}
use poi_hub.Stores.Model.{ServicePoi}
use poi_hub.Stores.Pois.{PoiResult, is_remote, is_provisional, category_of, dict_of}

-- what a row says of a POI
pub record PoiEntry : Type 0 where
  pub name : String
  pub address : String
  pub latitude : Option ℤ
  pub longitude : Option ℤ
  pub status : String
  pub category : Option String
  pub qualification : Option Fields
  pub checksum : String
  pub synced_at : ℕ

abbrev pub entry : ServicePoi → PoiEntry
entry p = record {
  name = p.name;
  address = p.address;
  latitude = p.latitude;
  longitude = p.longitude;
  status = p.remote_status;
  category = p.category;
  qualification = p.qualification_summary;
  checksum = p.raw_checksum;
  synced_at = p.last_synced_at;
}

abbrev pub map_some {ℓ} : {A B : Type ℓ} → (A → B) → Option A → Option B
map_some f none = none
map_some f (some a) = some (f a)

-- the listing of a connection: its entries by their remote ids
abbrev pub listing : String → String → List ServicePoi → String → Option PoiEntry
listing tenant c table k = map_some entry (find (is_remote tenant c k) table)

-- an entry that is set deleted
abbrev pub dropped : ℕ → PoiEntry → PoiEntry
dropped now e = record e { status = "deleted"; synced_at = now }

module _ (checksum : PoiResult → String) (show : Json → String) where
  abbrev pub entry_of : ℕ → PoiResult → PoiEntry
  unfolding category_of dict_of
  entry_of now r = record {
    name = r.name;
    address = r.address;
    latitude = r.latitude;
    longitude = r.longitude;
    status = r.status;
    category = category_of show (get "category" r.raw);
    qualification = dict_of (get "qualification_summary" r.raw);
    checksum = checksum r;
    synced_at = now;
  }

  -- the entry of the last result with this id, or what was there
  abbrev pub overlaid : ℕ → String → List PoiResult → Option PoiEntry → Option PoiEntry
  overlaid now k [] e = e
  overlaid now k (r ∷ rs) e = overlaid now k rs (if r.poi_id == k then some (entry_of now r) else e)

  -- what the listing becomes: a POI that is not listed is deleted, if its id is not provisional
  abbrev pub relisted : ℕ → String → List PoiResult → Option PoiEntry → Option PoiEntry
  unfolding is_provisional
  relisted now k remotes e = overlaid now k remotes (
      if not (any (λ r. r.poi_id == k) remotes) && not (is_provisional k)
      then map_some (dropped now) e
      else e)
