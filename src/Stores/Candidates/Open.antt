-- ===== src/Stores/Candidates/Open.antt =====
-- What is suggested can still be mapped, of backend/poi_admin/stores/service.py.
use poi_hub.Base.{
  ℕ, String, ◌≡◌, refl, Bool, true, false, not, none, some, List, [], ◌∷◌, ◌++◌, ◌&&◌, ◌==◌, ◌∙◌,
  arith, eq_iff, is_some, Bool-cases, Option-cases, inl, inr, if◌then◌else◌,
}
use poi_hub.Base.Rows.{find, any, select, All}
use poi_hub.Base.Rows.Laws.{
  find-test, select-append, select-write, All-both, All-sort_by, select-All, find-none, All-find,
}
use poi_hub.Base.Json.{str, field, end, apply_changes}
use poi_hub.Base.Result.{ok}
use poi_hub.Stores.Model.{
  refuse, Store, ServicePoi, MatchCandidate, Mapping, get_candidate, get_store, get_poi, require,
  is_active, check, refuse,
}
use poi_hub.Stores.Mappings.{
  Draw, new_mapping, clash, commit_mapping, create_mapping, confirm_candidate,
}
use poi_hub.Stores.Candidates.{
  CandidateScore, is_pair, takes_store, takes_poi, rescored, new_candidate, suggest, suggest_pois,
  suggest_stores, append_rows, is_active_store, list_pois, is_gone, generate_candidates, is_taken,
  is_listed, better, list_candidates,
}

-- A candidate that nobody has dismissed, and whose store and POI are free on the connection.
abbrev pub IsOpen : String → String → List Mapping → MatchCandidate → Type 0
IsOpen tenant c mappings x =
    (is_some x.dismissed_at ≡ false)
    × (any (takes_store tenant c x.store_id) mappings ≡ false)
    × (any (takes_poi tenant c x.service_poi_id) mappings ≡ false)

abbrev pub is_dismissed : MatchCandidate → Bool
is_dismissed x = is_some x.dismissed_at

-- what a part of the loop keeps to
abbrev Respects :
    (MatchCandidate → Type 0)
    → List MatchCandidate
    → List MatchCandidate × List MatchCandidate
    → Type 0
Respects P table (xs, table') = All P xs × (select is_dismissed table' ≡ select is_dismissed table)

Respects-append :
    (P : MatchCandidate → Type 0) (table : List MatchCandidate) (xs : List MatchCandidate)
    (table' : List MatchCandidate) (r : List MatchCandidate × List MatchCandidate)
    → Respects P table (xs, table')
    → Respects P table' r
    → Respects P table (append_rows xs r)
Respects-append P table xs table' (ys, table'') h k = (All-both P xs ys h.0 k.0, k.1 ∙ h.1)

module _ (score : Store → ServicePoi → CandidateScore) (new_id : String → String → String) (now : ℕ)
    (tenant c : String) (mappings : List Mapping) where
  new-IsOpen :
      (s : Store) (p : ServicePoi)
      → any (takes_store tenant c s.id) mappings ≡ false
      → any (takes_poi tenant c p.id) mappings ≡ false
      → IsOpen tenant c mappings
          (rescored now s p (score s p) (new_candidate (new_id s.id p.id) tenant c s.id p.id))
  unfolding rescored new_candidate
  new-IsOpen s p free open_poi = (refl, free, open_poi)

  rescored-IsOpen :
      (s : Store) (p : ServicePoi) (x : MatchCandidate)
      → is_pair tenant c s.id p.id x ≡ true
      → is_some x.dismissed_at ≡ false
      → any (takes_store tenant c s.id) mappings ≡ false
      → any (takes_poi tenant c p.id) mappings ≡ false
      → IsOpen tenant c mappings (rescored now s p (score s p) x)
  unfolding rescored is_pair
  rescored-IsOpen s p x pair live free open_poi =
      let a : x.store_id ≡ s.id = (eq_iff x.store_id s.id).0 (ground arith) in
      let b : x.service_poi_id ≡ p.id = (eq_iff x.service_poi_id p.id).0 (ground arith) in
      (live, rw a free, rw b open_poi)

  suggest-Respects :
      (s : Store) (p : ServicePoi) (table : List MatchCandidate)
      → any (takes_store tenant c s.id) mappings ≡ false
      → Respects
          (IsOpen tenant c mappings)
          table
          (suggest score new_id now tenant c mappings s p table)
  unfolding suggest
  suggest-Respects s p table free = elim (Bool-cases (any (takes_poi tenant c p.id) mappings)) [
    | inl taken ↦ rw (suggest, taken) (tt, refl)
    | inr open_poi ↦
        rw (suggest, open_poi)
          (elim (Option-cases (find (is_pair tenant c s.id p.id) table)) [
            | inl miss ↦ rw miss (
                let fresh = new-IsOpen s p free open_poi in
                ((fresh, tt), select-append is_dismissed table _ fresh.0))
            | inr (x, found) ↦ rw found (elim (Bool-cases (is_some x.dismissed_at)) [
              | inl old ↦ rw old (tt, refl)
              | inr live ↦
                  let kept =
                    rescored-IsOpen s p x (find-test (is_pair tenant c s.id p.id) table x found)
                      live free open_poi in
                  rw live (
                    (kept, tt),
                    select-write is_dismissed (is_pair tenant c s.id p.id)
                        (rescored now s p (score s p)) table x found live kept.0,
                  )
            ])
          ])
  ]

  suggest_pois-Respects :
      (s : Store) (ps : List ServicePoi) (table : List MatchCandidate)
      → any (takes_store tenant c s.id) mappings ≡ false
      → Respects
          (IsOpen tenant c mappings)
          table
          (suggest_pois score new_id now tenant c mappings s ps table)
  unfolding suggest_pois
  suggest_pois-Respects s [] table free = (tt, refl)
  suggest_pois-Respects s (p ∷ ps) table free =
      let r = suggest score new_id now tenant c mappings s p table in
      Respects-append (IsOpen tenant c mappings) table r.0 r.1
        (suggest_pois score new_id now tenant c mappings s ps r.1) (suggest-Respects s p table free)
        (suggest_pois-Respects s ps r.1 free)

  suggest_stores-Respects :
      (ss : List Store) (ps : List ServicePoi) (table : List MatchCandidate)
      → Respects
          (IsOpen tenant c mappings)
          table
          (suggest_stores score new_id now tenant c mappings ss ps table)
  unfolding suggest_stores
  suggest_stores-Respects [] ps table = (tt, refl)
  suggest_stores-Respects (s ∷ ss) ps table =
      elim (Bool-cases (any (takes_store tenant c s.id) mappings)) [
        | inl taken ↦
            rw (suggest_stores, taken)
              (Respects-append (IsOpen tenant c mappings) table [] table
                (suggest_stores score new_id now tenant c mappings ss ps table) (tt, refl)
                (suggest_stores-Respects ss ps table))
        | inr free ↦
            rw (suggest_stores, free)
              (let r = suggest_pois score new_id now tenant c mappings s ps table in
                Respects-append (IsOpen tenant c mappings) table r.0 r.1
                  (suggest_stores score new_id now tenant c mappings ss ps r.1)
                  (suggest_pois-Respects s ps table free) (suggest_stores-Respects ss ps r.1))
      ]

  -- Every candidate that is suggested is one that nobody has dismissed, and no active mapping of the
  -- connection has its store or its POI. The candidates that were dismissed are left as they are.
  pub generate_candidates-IsOpen :
      (stores : List Store) (pois : List ServicePoi) (table : List MatchCandidate)
      → All
          (IsOpen tenant c mappings)
          (generate_candidates score new_id now tenant c mappings stores pois table).0
        × (select is_dismissed
              (generate_candidates score new_id now tenant c mappings stores pois table).1
            ≡ select is_dismissed table)
  unfolding generate_candidates
  generate_candidates-IsOpen stores pois table =
      let r =
        suggest_stores-Respects (select (is_active_store score new_id now tenant c mappings) stores)
          (select (λ p. not (is_gone p)) (list_pois tenant (some c) pois)) table in
      (All-sort_by (IsOpen tenant c mappings) _ _ r.0, r.1)

free-clash :
    (tenant : String) (x : MatchCandidate) (m : Mapping) (ms : List Mapping)
    → m.tenant_id ≡ tenant
    → m.store_id ≡ x.store_id
    → m.service_poi_id ≡ x.service_poi_id
    → any (is_taken tenant x) ms ≡ false
    → any (λ y. clash y m) ms ≡ false
unfolding clash is_taken
free-clash tenant x m [] t s p h = refl
free-clash tenant x m (y ∷ ms) t s p h = ground (arith, free-clash tenant x m ms t s p)

listed_live :
    (tenant : String) (pois : List ServicePoi) (mappings : List Mapping) (x : MatchCandidate)
    → is_listed tenant false pois mappings x ≡ true
    → (is_some x.dismissed_at ≡ false) × (any (is_taken tenant x) mappings ≡ false)
unfolding is_listed
listed_live tenant pois mappings x h = (ground arith, ground arith)

unopposed :
    (m : Mapping) (x : MatchCandidate) (ms : List Mapping)
    → any (λ y. clash y m) ms ≡ false
    → elim (find (λ y. clash y m) ms) [
      | some y ↦
          if (y.store_id == x.store_id) && (y.service_poi_id == x.service_poi_id)
          then ok (y, ms)
          else refuse "mapping_conflict" 409
      | none ↦ commit_mapping m ms
    ]
      ≡ ok (m, ms ++ m ∷ [])
unfolding commit_mapping
unopposed m x ms free = rw (find-none (λ y. clash y m) ms free, free) refl

-- A candidate that the list shows is confirmed when a user confirms it, if its store and its POI are
-- there and no mapping has been made since: the answer is a new mapping of the two, which is active, in
-- the tenant, under the POI's connection, and confirmed by the user.
pub confirm_listed :
    (draw : Draw) (stores : List Store) (pois : List ServicePoi) (mappings : List Mapping)
    (table : List MatchCandidate) (tenant i actor : String) (x : MatchCandidate) (s : Store)
    (p : ServicePoi)
    → find (λ y. y.id == i) (list_candidates tenant false pois mappings table) ≡ some x
    → get_candidate tenant i table ≡ some x
    → get_store tenant x.store_id stores ≡ some s
    → get_poi tenant x.service_poi_id pois ≡ some p
    → (m : Mapping) × (confirm_candidate draw stores pois table tenant i actor mappings mappings
        ≡ ok (m, mappings ++ m ∷ []))
      × (m.tenant_id ≡ tenant)
      × (m.store_id ≡ x.store_id)
      × (m.service_poi_id ≡ x.service_poi_id)
      × (m.connection_id ≡ p.connection_id)
      × (is_active m.state ≡ true)
      × (m.confirmed_by_user_id ≡ actor)
unfolding list_candidates confirm_candidate create_mapping commit_mapping require check
    apply_changes
confirm_listed draw stores pois mappings table tenant i actor x s p shown there store poi =
    let listed : is_listed tenant false pois mappings x ≡ true =
      All-find (λ y. is_listed tenant false pois mappings y ≡ true) (λ y. y.id == i)
        (list_candidates tenant false pois mappings table) x
        (All-sort_by (λ y. is_listed tenant false pois mappings y ≡ true) better _
          (select-All (is_listed tenant false pois mappings) table))
        shown in
    let m =
      new_mapping draw tenant p.connection_id x.store_id x.service_poi_id actor (some x.total_score)
        (apply_changes x.evidence (field "source" (str "candidate") end)) in
    let live = listed_live tenant pois mappings x listed in
    let free = free-clash tenant x m mappings refl refl refl live.1 in
    (
      m,
      rw (there, confirm_candidate, require, check, live.0, create_mapping, store, poi)
          (unopposed m x mappings free),
      refl,
      refl,
      refl,
      refl,
      refl,
      refl,
    )
