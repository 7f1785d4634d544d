-- ===== src/Stores/Tests.antt =====
-- Runs of the store service of backend/poi_admin/stores/service.py on concrete rows.
mod Pois
use poi_hub.Base.{◌≡◌, refl, false, none, List, [], ◌∷◌}
use poi_hub.Base.Rows.{any}
use poi_hub.Base.Rows.Laws.{Distinct}
use poi_hub.Base.Result.{ok, ok_or}
use poi_hub.Base.Json.{str, end, field}
use poi_hub.Stores.Model.{Store, ServicePoi, Mapping, refuse, get_store}
use poi_hub.Stores.Mappings.{Draw, clash, manual_map, maps_store}
use poi_hub.Stores.Mappings.Exclusive.{here, next, mapped, MappingReach-Distinct}
use poi_hub.Stores.Editing.{has_version, update_store, archive_store}
use poi_hub.Stores.Editing.Versions.{update_store_once, archive_store_unmaps}

abbrev pub store : Store
store = record {
  id = "s";
  tenant_id = "t";
  columns = field "code" (str "A1") (
      field "name" (str "Shop")
        (field "address" (str "Street") (field "status" (str "active") end)));
  version = 1;
}

abbrev pub poi : ServicePoi
poi = record {
  id = "p";
  tenant_id = "t";
  connection_id = "c";
  external_poi_id = "e";
  name = "Shop";
  address = "Street";
  latitude = none;
  longitude = none;
  remote_status = "active";
  category = none;
  qualification_summary = none;
  raw_checksum = "";
  last_synced_at = 0;
}

abbrev pub draw : Draw
draw = record { new_id = "m"; now = 10 }

abbrev made : Mapping × List Mapping
made = ok_or (manual_map draw (store ∷ []) (poi ∷ []) "t" "s" "p" "u" [] []) (one, one ∷ [])
  where
    one : Mapping
    one = record {
      id = "m";
      tenant_id = "t";
      connection_id = "c";
      store_id = "s";
      service_poi_id = "p";
      state = poi_hub.Stores.Model.active;
      match_score = none;
      match_evidence = end;
      confirmed_by_user_id = "u";
      confirmed_at = 10;
      unbound_by_user_id = none;
      unbound_at = none;
    }

mapping : manual_map draw (store ∷ []) (poi ∷ []) "t" "s" "p" "u" [] [] ≡ ok (made.0, made.1)
unfolding manual_map
mapping = refl

MappingReach-Distinct_example : Distinct clash made.1
MappingReach-Distinct_example =
    MappingReach-Distinct [] made.1
      (next here (mapped draw (store ∷ []) (poi ∷ []) "t" "s" "p" "u" [] [] made.0 made.1 mapping))
      tt

abbrev renamed : Store × List Store
renamed =
    ok_or (update_store "t" "s" 1 (field "name" (str " New ") end) (store ∷ []) (store ∷ []))
      (store, [])

rename :
    update_store "t" "s" 1 (field "name" (str " New ") end) (store ∷ []) (store ∷ [])
    ≡ ok (renamed.0, renamed.1)
unfolding update_store
rename = refl

update_store_once_example :
    update_store "t" "s" 1 (field "name" (str "Other") end) (store ∷ []) renamed.1
    ≡ refuse "version_conflict" 409
unfolding get_store
update_store_once_example =
    update_store_once "t" "s" 1 (field "name" (str " New ") end) (field "name" (str "Other") end)
      (store ∷ []) (store ∷ []) renamed.0 renamed.1 (store ∷ []) store rename refl

abbrev archived : List Store × List Mapping
archived = ok_or (archive_store "t" "s" 1 "u" 20 (store ∷ [], made.1)) ([], [])

archive : archive_store "t" "s" 1 "u" 20 (store ∷ [], made.1) ≡ ok (archived.0, archived.1)
unfolding archive_store
archive = refl

archive_store_unmaps_example :
    (any (maps_store "t" "s") archived.1 ≡ false) × (any (has_version "t" "s" 1) archived.0 ≡ false)
archive_store_unmaps_example =
    archive_store_unmaps "t" "s" 1 "u" 20 (store ∷ []) made.1 archived.0 archived.1 archive
