-- ===== src/Stores/Candidates.antt =====
-- The suggested mappings, `generate_candidates`, `list_candidates` and `dismiss_candidate` of
-- backend/poi_admin/stores/service.py, and `list_pois`. A call reads the clock once.
pub mod Open
use poi_hub.Base.{
  ℕ, suc, String, Bool, true, false, not, Option, none, some, List, [], ◌∷◌, ◌++◌, ◌&&◌, ◌||◌, ◌==◌,
  if◌then◌else◌, is_some, eqb, ltb, opt_eq,
}
use Prim.Native.String.{compare as text_compare}
use Prim.Native.Nat.Ordering.{lt}
use poi_hub.Base.Rows.{find, any, update, write, select, length, sort_by}
use poi_hub.Base.Json.{Json, null, int, str, Fields, end, field, get, get_str, apply_changes}
use poi_hub.Base.Int.{pos}
use poi_hub.Base.Result.{Result, ok, err, ◌>>=◌, ◌>>◌}
use poi_hub.Stores.Model.{
  Store, ServicePoi, MatchCandidate, Mapping, StoreError, require, get_candidate, is_active,
}

-- `CandidateScore`: scores in millionths, the distance in millimetres
pub record CandidateScore : Type 0 where
  pub total : ℕ
  pub name : ℕ
  pub address : ℕ
  pub distance : ℕ
  pub distance_meters : Option ℕ

abbrev pub earlier_text : String → String → Bool
earlier_text a b = elim (text_compare a b) [ lt ↦ true | _ ↦ false ]

-- `ORDER BY last_synced_at DESC, id`
abbrev newer : ServicePoi → ServicePoi → Bool
newer a b =
    ltb b.last_synced_at a.last_synced_at
    || (eqb a.last_synced_at b.last_synced_at && earlier_text a.id b.id)

unfoldable pub list_pois : String → Option String → List ServicePoi → List ServicePoi
list_pois tenant none table = sort_by newer (select (λ p. p.tenant_id == tenant) table)
list_pois tenant (some c) table =
    sort_by newer (select (λ p. p.tenant_id == tenant && p.connection_id == c) table)

-- `remote_status in {"deleted", "stale"}`
unfoldable pub is_gone : ServicePoi → Bool
is_gone p = p.remote_status == "deleted" || p.remote_status == "stale"

-- an active mapping of the connection that maps the store, and one that maps the POI
unfoldable pub takes_store : String → String → String → Mapping → Bool
takes_store tenant c store m =
    m.tenant_id == tenant && m.connection_id == c && is_active m.state && m.store_id == store

unfoldable pub takes_poi : String → String → String → Mapping → Bool
takes_poi tenant c poi m =
    m.tenant_id == tenant && m.connection_id == c && is_active m.state && m.service_poi_id == poi

-- the key of a candidate among those of the connection
unfoldable pub is_pair : String → String → String → String → MatchCandidate → Bool
is_pair tenant c store poi x =
    x.tenant_id == tenant && x.connection_id == c && x.store_id == store && x.service_poi_id == poi

abbrev millimetres : Option ℕ → Json
millimetres none = null
millimetres (some n) = int (pos n)

-- `CandidateScore.evidence`
unfoldable pub evidence : CandidateScore → Fields
evidence x = field "name_score" (int (pos x.name)) (
    field "address_score" (int (pos x.address)) (
      field "distance_score" (int (pos x.distance))
        (field "distance_meters" (millimetres x.distance_meters) end)))

column : String → Store → Json
column k s = elim (get k s.columns) [ none ↦ null | some v ↦ v ]

-- the row of a candidate with this score
unfoldable pub rescored : ℕ → Store → ServicePoi → CandidateScore → MatchCandidate → MatchCandidate
unfolding evidence column apply_changes
rescored now s p score x = record x {
  total_score = score.total;
  name_score = score.name;
  address_score = score.address;
  distance_score = score.distance;
  distance_meters = score.distance_meters;
  evidence =
      apply_changes
        (field "store_name" (column "name" s) (
          field "poi_name" (str p.name)
            (field "store_address" (column "address" s) (field "poi_address" (str p.address) end))))
        (evidence score);
  generated_at = now;
}

unfoldable pub new_candidate : String → String → String → String → String → MatchCandidate
new_candidate i tenant c store poi = record {
  id = i;
  tenant_id = tenant;
  connection_id = c;
  store_id = store;
  service_poi_id = poi;
  total_score = 0;
  name_score = 0;
  address_score = 0;
  distance_score = 0;
  distance_meters = none;
  evidence = end;
  generated_at = 0;
  dismissed_at = none;
  dismissed_by_user_id = none;
}

abbrev cons_row : {A B : Type 0} → A → List A × B → List A × B
cons_row x (xs, b) = (x ∷ xs, b)

abbrev append_rows : {A B : Type 0} → List A → List A × B → List A × B
append_rows xs (ys, b) = (xs ++ ys, b)

-- `score` is `score_candidate` on the names, the addresses and the coordinates of both. `new_id`
-- gives the id of a new row for its store and its POI.
module _ (score : Store → ServicePoi → CandidateScore) (new_id : String → String → String) (now : ℕ)
    (tenant c : String) (mappings : List Mapping) where
  -- One pair of a store and a POI: what is suggested, and the table. A pair comes once, so that
  -- the table has the row that the code has looked up before the loop.
  unfoldable pub suggest :
      Store → ServicePoi → List MatchCandidate → List MatchCandidate × List MatchCandidate
  unfolding takes_poi is_pair rescored new_candidate
  suggest s p table =
      if any (takes_poi tenant c p.id) mappings
      then ([], table)
      else elim (find (is_pair tenant c s.id p.id) table) [
        | none ↦
            let x =
              rescored now s p (score s p) (new_candidate (new_id s.id p.id) tenant c s.id p.id) in
            (x ∷ [], table ++ x ∷ [])
        | some x ↦ if is_some x.dismissed_at then ([], table) else (
          rescored now s p (score s p) x ∷ [],
          write (is_pair tenant c s.id p.id) (rescored now s p (score s p)) table,
        )
      ]

  unfoldable pub suggest_pois :
      Store → List ServicePoi → List MatchCandidate → List MatchCandidate × List MatchCandidate
  unfolding suggest
  suggest_pois s [] table = ([], table)
  suggest_pois s (p ∷ ps) table =
      let (xs, table') = suggest s p table in append_rows xs (suggest_pois s ps table')

  unfoldable pub suggest_stores :
      List Store → List ServicePoi → List MatchCandidate → List MatchCandidate × List MatchCandidate
  unfolding suggest_pois takes_store
  suggest_stores [] pois table = ([], table)
  suggest_stores (s ∷ ss) pois table =
      let (xs, table') =
        if any (takes_store tenant c s.id) mappings
        then ([], table)
        else suggest_pois s pois table in
      append_rows xs (suggest_stores ss pois table')

  -- `Store.status == "active"`, of the tenant
  unfoldable pub is_active_store : Store → Bool
  is_active_store s = s.tenant_id == tenant && opt_eq (get_str "status" s.columns) (some "active")

  -- What is suggested, the best first, and the table.
  unfoldable pub generate_candidates :
      List Store → List ServicePoi → List MatchCandidate → List MatchCandidate × List MatchCandidate
  unfolding suggest_stores is_active_store list_pois is_gone
  generate_candidates stores pois table =
      let (xs, table') =
        suggest_stores (select is_active_store stores)
          (select (λ p. not (is_gone p)) (list_pois tenant (some c) pois)) table in
      (sort_by (λ a b. ltb b.total_score a.total_score) xs, table')

-- an active mapping of the tenant on the store or the POI of the candidate
unfoldable pub is_taken : String → MatchCandidate → Mapping → Bool
is_taken tenant x m =
    m.tenant_id == tenant
    && is_active m.state
    && (m.store_id == x.store_id || m.service_poi_id == x.service_poi_id)

-- the rows that `list_candidates` answers
unfoldable pub is_listed : String → Bool → List ServicePoi → List Mapping → MatchCandidate → Bool
unfolding is_gone is_taken
is_listed tenant include_dismissed pois mappings x =
    x.tenant_id == tenant
    && any (λ p. p.id == x.service_poi_id && not (is_gone p)) pois
    && (include_dismissed
        || (not (is_some x.dismissed_at) && not (any (is_taken tenant x) mappings)))

-- `ORDER BY total_score DESC, id`
abbrev better : MatchCandidate → MatchCandidate → Bool
better a b =
    ltb b.total_score a.total_score || (eqb a.total_score b.total_score && earlier_text a.id b.id)

unfoldable pub list_candidates :
    String → Bool → List ServicePoi → List Mapping → List MatchCandidate → List MatchCandidate
unfolding is_listed
list_candidates tenant include_dismissed pois mappings table =
    sort_by better (select (is_listed tenant include_dismissed pois mappings) table)

unfoldable pub dismissed : String → ℕ → MatchCandidate → MatchCandidate
dismissed actor now x = record x { dismissed_at = some now; dismissed_by_user_id = some actor }

unfoldable dismiss_candidate :
    String
    → String
    → String
    → ℕ
    → List MatchCandidate
    → Result StoreError (MatchCandidate × List MatchCandidate)
unfolding get_candidate require dismissed
dismiss_candidate tenant i actor now table = do
  x ← require (get_candidate tenant i table) "candidate_not_found" 404
  ok (
    dismissed actor now x,
    write (λ y. y.tenant_id == tenant && y.id == i) (dismissed actor now) table,
  )
