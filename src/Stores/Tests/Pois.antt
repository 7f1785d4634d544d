-- ===== src/Stores/Tests/Pois.antt =====
-- Runs of the POIs and of the suggested mappings of backend/poi_admin/stores on concrete rows.
use poi_hub.Base.{ℕ, String, ◌≡◌, refl, none, some, List, [], ◌∷◌, ◌++◌, ◌==◌, false, true}
use poi_hub.Base.Rows.{All, find, select}
use poi_hub.Base.Result.{Result, ok, err, ok_or}
use poi_hub.Base.Json.{Json, str, Fields, end, field}
use poi_hub.Connections.Model.{WeChatConnection}
use poi_hub.Connections.Ports.{terminal}
use poi_hub.Operations.Model.{Operation, queued}
use poi_hub.Operations.Errors.{Failure, gateway, other}
use poi_hub.Stores.Model.{
  is_active, Store, ServicePoi, Mapping, MatchCandidate, get_candidate, get_store, get_poi,
}
use poi_hub.Stores.Mappings.{confirm_candidate}
use poi_hub.Stores.Pois.{PoiResult, is_audit, sync_pois}
use poi_hub.Stores.Pois.Entries.{listing, relisted}
use poi_hub.Stores.Pois.Listing.{sync_pois-listing}
use poi_hub.Stores.Candidates.{CandidateScore, generate_candidates, list_candidates}
use poi_hub.Stores.Candidates.Open.{
  IsOpen, is_dismissed, generate_candidates-IsOpen, confirm_listed,
}
use poi_hub.Stores.Operations.{StoreDb, PoiGateway, delete, poi_for}
use poi_hub.Stores.Operations.Deletion.{delete_again}
use poi_hub.Stores.Tests.{store, poi, draw}

abbrev show : Json → String
show v = "value"

abbrev fold : String → String
fold s = s

abbrev checksum : PoiResult → String
checksum r = "checksum"

abbrev new_id : ℕ → String
new_id n = "new"

abbrev connection : WeChatConnection
connection = record {
  id = "c";
  tenant_id = "t";
  capability = "service_poi";
  mode = "live";
  mock_scenario = "success";
  status = "authorized";
  app_id = some "wx";
  merchant_id = none;
  encrypted_secrets = none;
  token_expires_at = none;
  permission_snapshot = none;
  last_health_check_at = none;
  last_error = none;
  created_at = 0;
}

abbrev remote : PoiResult
remote = record {
  poi_id = "e-2";
  name = "Shop";
  address = "Street";
  latitude = none;
  longitude = none;
  status = "active";
  raw = field "category" (str "food") end;
}

abbrev waiting : ServicePoi
waiting = record poi { id = "p-2"; external_poi_id = "audit:1" }

abbrev remotes : List PoiResult
remotes = remote ∷ []

abbrev mock : Result Failure (List PoiResult)
mock = err other

abbrev synced : List String × List ServicePoi
unfolding sync_pois
synced =
    ok_or
      (sync_pois checksum fold show new_id 50 "t" connection (some (ok remotes)) mock
        (poi ∷ waiting ∷ []))
      ([], [])

sync :
    sync_pois checksum fold show new_id 50 "t" connection
      (some (ok remotes))
      mock
      (poi ∷ waiting ∷ [])
    ≡ ok (synced.0, synced.1)
unfolding sync_pois
sync = refl

plain : is_audit "e-2" ≡ false
unfolding is_audit
plain = refl

sync_pois-listing_example :
    listing "t" "c" synced.1 "e-2"
    ≡ relisted checksum show 50 "e-2" remotes (listing "t" "c" (poi ∷ waiting ∷ []) "e-2")
sync_pois-listing_example =
    sync_pois-listing checksum fold show new_id 50 "t" connection remotes mock (poi ∷ waiting ∷ [])
      "e-2" synced.0 synced.1 plain sync

abbrev score : Store → ServicePoi → CandidateScore
score s p = record {
  total = 900000;
  name = 1000000;
  address = 0;
  distance = 0;
  distance_meters = none;
}

abbrev pair_id : String → String → String
pair_id s p = "x"

abbrev suggested : List MatchCandidate × List MatchCandidate
unfolding generate_candidates
suggested = generate_candidates score pair_id 60 "t" "c" [] (store ∷ []) (poi ∷ []) []

generate_candidates-IsOpen_example :
    All
      (IsOpen "t" "c" [])
      (generate_candidates score pair_id 60 "t" "c" [] (store ∷ []) (poi ∷ []) []).0
    × (select is_dismissed
          (generate_candidates score pair_id 60 "t" "c" [] (store ∷ []) (poi ∷ []) []).1
        ≡ select is_dismissed [])
generate_candidates-IsOpen_example =
    generate_candidates-IsOpen score pair_id 60 "t" "c" [] (store ∷ []) (poi ∷ []) []

abbrev suggestion : MatchCandidate
suggestion = record {
  id = "x";
  tenant_id = "t";
  connection_id = "c";
  store_id = "s";
  service_poi_id = "p";
  total_score = 900000;
  name_score = 1000000;
  address_score = 0;
  distance_score = 0;
  distance_meters = none;
  evidence = end;
  generated_at = 60;
  dismissed_at = none;
  dismissed_by_user_id = none;
}

shown :
    find (λ y. y.id == "x") (list_candidates "t" false (poi ∷ []) [] (suggestion ∷ []))
    ≡ some suggestion
unfolding list_candidates
shown = refl

confirm_listed_example :
    (m : Mapping) × (confirm_candidate draw
        (store ∷ [])
        (poi ∷ [])
        (suggestion ∷ [])
        "t"
        "x"
        "u"
        []
        []
      ≡ ok (m, [] ++ m ∷ []))
    × (m.tenant_id ≡ "t")
    × (m.store_id ≡ "s")
    × (m.service_poi_id ≡ "p")
    × (m.connection_id ≡ "c")
    × (is_active m.state ≡ true)
    × (m.confirmed_by_user_id ≡ "u")
unfolding get_candidate get_store get_poi
confirm_listed_example =
    confirm_listed draw (store ∷ []) (poi ∷ []) [] (suggestion ∷ []) "t" "x" "u" suggestion store
      poi shown refl refl refl

abbrev operation : Operation
operation = record {
  id = "o";
  tenant_id = "t";
  connection_id = some "c";
  command_type = "service_poi.delete";
  idempotency_key = "k";
  resource_ref = none;
  status = queued;
  attempt_count = 0;
  max_attempts = 8;
  payload = field "poi_id" (str "p") end;
  encrypted_payload = none;
  response_summary = none;
  error_code = none;
  error_message = none;
  worker_id = none;
  lease_expires_at = none;
  next_attempt_at = 0;
  created_at = 0;
  updated_at = 0;
  completed_at = none;
}

abbrev deleting : Result Failure Unit → PoiGateway
deleting answer = record {
  list_pois = err other;
  create_poi = λ d. err other;
  update_poi = λ i d. err other;
  delete_poi = λ i. answer;
  get_audit_status = λ i. err other;
}

abbrev missing : PoiGateway
missing = deleting (err (gateway (terminal "gone" "poi_not_found")))

abbrev connect : WeChatConnection → Result Failure PoiGateway
connect c = ok (deleting (ok tt))

abbrev connect_later : WeChatConnection → Result Failure PoiGateway
connect_later c = ok missing

abbrev stores : StoreDb
stores = record { stores = store ∷ []; pois = poi ∷ []; candidates = []; mappings = [] }

abbrev deleted : Fields × StoreDb
unfolding delete
deleted = ok_or (delete (connection ∷ []) connect 70 operation stores) (end, stores)

deletes : delete (connection ∷ []) connect 70 operation stores ≡ ok (deleted.0, deleted.1)
unfolding delete
deletes = refl

delete_again_example :
    (db : StoreDb) × (delete (connection ∷ []) connect_later 90 operation deleted.1
      ≡ ok (deleted.0, db))
    × (c : WeChatConnection) × (p : ServicePoi) × (poi_for operation c db ≡ ok p)
    × (p.remote_status ≡ "deleted")
delete_again_example =
    delete_again (connection ∷ []) connect connect_later 70 90 operation stores deleted.0 deleted.1
      missing "gone" deletes (λ c. refl) (λ i. refl)
