-- ===== src/Stores/Mappings.antt =====
-- The mappings between stores and POIs, of backend/poi_admin/stores/service.py.
pub mod Exclusive
use poi_hub.Base.{
  ℕ, String, ◌+◌, Bool, true, false, Option, none, some, List, [], ◌∷◌, ◌++◌, ◌&&◌, ◌||◌, ◌==◌, eqb,
  if◌then◌else◌, is_some, not,
}
use poi_hub.Base.Rows.{find, any, update, write}
use poi_hub.Base.Json.{Fields, end, field, str, apply_changes}
use poi_hub.Base.Result.{Result, ok, err, ◌>>=◌, ◌>>◌}
use poi_hub.Stores.Model.{
  Store, ServicePoi, MatchCandidate, Mapping, MappingState, active, unbound, StoreError, refuse,
  require, check, get_store, get_poi, get_candidate, is_active,
}

-- both active, for one tenant and connection, with the store or the POI in common: what the unique
-- indexes `uq_active_mapping_store` and `uq_active_mapping_poi` refuse
unfoldable pub clash : Mapping → Mapping → Bool
clash a b =
    is_active a.state
    && is_active b.state
    && a.tenant_id == b.tenant_id
    && a.connection_id == b.connection_id
    && (a.store_id == b.store_id || a.service_poi_id == b.service_poi_id)

-- what a call draws on: the id of a new row and the time
pub record Draw : Type 0 where
  pub new_id : String
  pub now : ℕ

abbrev pub new_mapping :
    Draw → String → String → String → String → String → Option ℕ → Fields → Mapping
new_mapping draw tenant connection store poi actor score evidence = record {
  id = draw.new_id;
  tenant_id = tenant;
  connection_id = connection;
  store_id = store;
  service_poi_id = poi;
  state = active;
  match_score = score;
  match_evidence = evidence;
  confirmed_by_user_id = actor;
  confirmed_at = draw.now;
  unbound_by_user_id = none;
  unbound_at = none;
}

-- the commit, on which the unique indexes are checked
unfoldable pub commit_mapping : Mapping → List Mapping → Result StoreError (Mapping × List Mapping)
unfolding clash
commit_mapping m table =
    if any (λ x. clash x m) table then refuse "mapping_conflict" 409 else ok (m, table ++ m ∷ [])

-- `_create_mapping`; `seen` is the table that the query for conflicts reads, and `table` the one at
-- the commit
unfoldable pub create_mapping :
    Draw
    → List Store
    → List ServicePoi
    → String
    → String
    → String
    → String
    → Option ℕ
    → Fields
    → List Mapping
    → List Mapping
    → Result StoreError (Mapping × List Mapping)
unfolding get_store get_poi require commit_mapping clash
create_mapping draw stores pois tenant store poi actor score evidence seen table = do
  s ← require (get_store tenant store stores) "mapping_resource_not_found" 404
  p ← require (get_poi tenant poi pois) "mapping_resource_not_found" 404
  let m = new_mapping draw tenant p.connection_id store poi actor score evidence
  elim (find (λ x. clash x m) seen) [
    | some x ↦
        if (x.store_id == store) && (x.service_poi_id == poi)
        then ok (x, table)
        else refuse "mapping_conflict" 409
    | none ↦ commit_mapping m table
  ]

unfoldable pub manual_map :
    Draw
    → List Store
    → List ServicePoi
    → String
    → String
    → String
    → String
    → List Mapping
    → List Mapping
    → Result StoreError (Mapping × List Mapping)
unfolding create_mapping
manual_map draw stores pois tenant store poi actor seen table =
    create_mapping draw stores pois tenant store poi actor none (field "source" (str "manual") end)
      seen table

unfoldable pub confirm_candidate :
    Draw
    → List Store
    → List ServicePoi
    → List MatchCandidate
    → String
    → String
    → String
    → List Mapping
    → List Mapping
    → Result StoreError (Mapping × List Mapping)
unfolding get_candidate require check create_mapping apply_changes
confirm_candidate draw stores pois candidates tenant i actor seen table = do
  c ← require (get_candidate tenant i candidates) "candidate_not_found" 404
  check (not (is_some c.dismissed_at)) "candidate_dismissed" 409
  create_mapping draw stores pois tenant c.store_id c.service_poi_id actor (some c.total_score)
      (apply_changes c.evidence (field "source" (str "candidate") end)) seen table

-- the mapping of a tenant with this id, while it is active
unfoldable pub is_bound : String → String → Mapping → Bool
is_bound tenant i m = m.tenant_id == tenant && m.id == i && is_active m.state

unfoldable pub release : String → ℕ → Mapping → Mapping
release actor now m = record m {
  state = unbound;
  unbound_by_user_id = some actor;
  unbound_at = some now;
}

unfoldable pub unbind_mapping :
    String → String → String → ℕ → List Mapping → Result StoreError (Mapping × List Mapping)
unfolding is_bound release require
unbind_mapping tenant i actor now table = do
  m ← require (find (is_bound tenant i) table) "mapping_not_found" 404
  ok (release actor now m, write (is_bound tenant i) (release actor now) table)

-- an active mapping of the store
unfoldable pub maps_store : String → String → Mapping → Bool
maps_store tenant store m = m.tenant_id == tenant && m.store_id == store && is_active m.state
