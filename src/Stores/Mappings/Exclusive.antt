-- ===== src/Stores/Mappings/Exclusive.antt =====
-- One active mapping for a store and for a POI, whatever sessions do to the table of
-- backend/poi_admin/stores/service.py.
use poi_hub.Base.{
  ℕ, String, ◌≡◌, refl, Bool, false, Option, none, some, List, [], ◌∷◌, ◌++◌, ◌&&◌, ◌==◌, arith,
  Bool-cases, Option-cases, inl, inr, if◌then◌else◌, is_some, not,
}
use poi_hub.Base.Rows.{any, update, write, find}
use poi_hub.Base.Rows.Laws.{Distinct, Distinct-append}
use poi_hub.Base.Json.{Fields}
use poi_hub.Base.Result.{ok, after_ok}
use poi_hub.Stores.Model.{
  Store, ServicePoi, MatchCandidate, Mapping, require, refuse, check, get_store, get_poi,
  get_candidate,
}
use poi_hub.Stores.Mappings.{
  Draw, new_mapping, clash, commit_mapping, create_mapping, confirm_candidate, manual_map,
  unbind_mapping, release, is_bound, maps_store,
}
use poi_hub.Stores.Editing.{archive_store, has_version}

-- the calls that write mappings, each on the table as it finds it
pub data MappingStep : List Mapping → List Mapping → Type 0 where
  mapped :
      (draw : Draw) (stores : List Store) (pois : List ServicePoi) (tenant store poi actor : String)
      (seen t : List Mapping) (m : Mapping) (u : List Mapping)
      → manual_map draw stores pois tenant store poi actor seen t ≡ ok (m, u)
      → MappingStep t u
  confirmed :
      (draw : Draw) (stores : List Store) (pois : List ServicePoi)
      (candidates : List MatchCandidate) (tenant i actor : String) (seen t : List Mapping)
      (m : Mapping) (u : List Mapping)
      → confirm_candidate draw stores pois candidates tenant i actor seen t ≡ ok (m, u)
      → MappingStep t u
  unbound :
      (tenant i actor : String) (now : ℕ) (t : List Mapping) (m : Mapping) (u : List Mapping)
      → unbind_mapping tenant i actor now t ≡ ok (m, u)
      → MappingStep t u
  archived :
      (tenant i : String) (version : ℕ) (actor : String) (now : ℕ) (stores : List Store)
      (t : List Mapping) (stores' : List Store) (u : List Mapping)
      → archive_store tenant i version actor now (stores, t) ≡ ok (stores', u)
      → MappingStep t u

pub data MappingReach (s : List Mapping) : List Mapping → Type 0 where
  here : MappingReach s s
  next : {t u : List Mapping} → MappingReach s t → MappingStep t u → MappingReach s u

release-clash :
    (actor : String) (now : ℕ) (a b : Mapping)
    → (clash (release actor now a) b ≡ false) × (clash b (release actor now a) ≡ false)
unfolding clash release
release-clash actor now a b = (ground arith, ground arith)

any-released :
    (p : Mapping → Bool) (actor : String) (now : ℕ) (x : Mapping) (t : List Mapping)
    → any (clash x) t ≡ false
    → any (clash x) (update p (release actor now) t) ≡ false
any-released p actor now x [] h = refl
any-released p actor now x (m ∷ t) h =
    ground (arith, release-clash actor now m x, any-released p actor now x t)

none-released :
    (actor : String) (now : ℕ) (x : Mapping) (t : List Mapping)
    → any (clash (release actor now x)) t ≡ false
none-released actor now x [] = refl
none-released actor now x (m ∷ t) =
    ground (arith, release-clash actor now x m, none-released actor now x t)

update-Distinct :
    (p : Mapping → Bool) (actor : String) (now : ℕ) (t : List Mapping)
    → Distinct clash t
    → Distinct clash (update p (release actor now) t)
update-Distinct p actor now [] d = tt
update-Distinct p actor now (m ∷ t) d = elim (Bool-cases (p m)) [
  | inl hit ↦ rw hit (none-released actor now m _, update-Distinct p actor now t d.1)
  | inr miss ↦ rw miss (any-released p actor now m t d.0, update-Distinct p actor now t d.1)
]

any-written :
    (p : Mapping → Bool) (actor : String) (now : ℕ) (x : Mapping) (t : List Mapping)
    → any (clash x) t ≡ false
    → any (clash x) (write p (release actor now) t) ≡ false
any-written p actor now x [] h = refl
any-written p actor now x (m ∷ t) h =
    ground (arith, release-clash actor now m x, any-written p actor now x t)

write-Distinct :
    (p : Mapping → Bool) (actor : String) (now : ℕ) (t : List Mapping)
    → Distinct clash t
    → Distinct clash (write p (release actor now) t)
write-Distinct p actor now [] d = tt
write-Distinct p actor now (m ∷ t) d = elim (Bool-cases (p m)) [
  | inl hit ↦ rw hit (none-released actor now m t, d.1)
  | inr miss ↦ rw miss (any-written p actor now m t d.0, write-Distinct p actor now t d.1)
]

commit-Distinct :
    (m : Mapping) (t : List Mapping) (x : Mapping) (u : List Mapping)
    → Distinct clash t
    → commit_mapping m t ≡ ok (x, u)
    → Distinct clash u
unfolding commit_mapping
commit-Distinct m t x u d e = elim (Bool-cases (any (λ y. clash y m) t)) [
  | inl taken ↦ absurd (ground arith)
  | inr free ↦
      let grown : u ≡ t ++ m ∷ [] = ground arith in rw grown (Distinct-append clash t m d free)
]

conflict-Distinct :
    (n : Mapping) (seen t : List Mapping) (m : Mapping) (u : List Mapping)
    → Distinct clash t
    → elim (find (λ x. clash x n) seen) [
      | some x ↦
          if (x.store_id == n.store_id) && (x.service_poi_id == n.service_poi_id)
          then ok (x, t)
          else refuse "mapping_conflict" 409
      | none ↦ commit_mapping n t
    ]
      ≡ ok (m, u)
    → Distinct clash u
conflict-Distinct n seen t m u d e = elim (Option-cases (find (λ x. clash x n) seen)) [
  | inl free ↦ commit-Distinct n t m u d (ground arith)
  | inr (x, found) ↦
      elim (Bool-cases ((x.store_id == n.store_id) && (x.service_poi_id == n.service_poi_id))) [
        | inl same ↦ let kept : u ≡ t = ground arith in rw kept d
        | inr other ↦ absurd (ground arith)
      ]
]

create-Distinct :
    (draw : Draw) (stores : List Store) (pois : List ServicePoi) (tenant store poi actor : String)
    (score : Option ℕ) (evidence : Fields) (seen t : List Mapping) (m : Mapping) (u : List Mapping)
    → Distinct clash t
    → create_mapping draw stores pois tenant store poi actor score evidence seen t ≡ ok (m, u)
    → Distinct clash u
unfolding create_mapping
create-Distinct draw stores pois tenant store poi actor score evidence seen t m u d e =
    after_ok (require (get_store tenant store stores) "mapping_resource_not_found" 404) _ (m, u)
      (Distinct clash u)
      (λ s there rest.
        after_ok (require (get_poi tenant poi pois) "mapping_resource_not_found" 404) _ (m, u)
          (Distinct clash u)
          (λ p here last.
            conflict-Distinct
              (new_mapping draw tenant p.connection_id store poi actor score evidence) seen t m u d
              last)
          rest)
      e

step-Distinct : (t u : List Mapping) → MappingStep t u → Distinct clash t → Distinct clash u
unfolding manual_map confirm_candidate unbind_mapping archive_store require
step-Distinct _ _ (mapped draw stores pois tenant store poi actor seen t m u e) d =
    create-Distinct draw stores pois tenant store poi actor none _ seen t m u d e
step-Distinct _ _ (confirmed draw stores pois candidates tenant i actor seen t m u e) d =
    after_ok (require (get_candidate tenant i candidates) "candidate_not_found" 404) _ (m, u)
      (Distinct clash u)
      (λ c there rest.
        after_ok (check (not (is_some c.dismissed_at)) "candidate_dismissed" 409) _ (m, u)
          (Distinct clash u)
          (λ x undismissed last.
            create-Distinct draw stores pois tenant c.store_id c.service_poi_id actor
              (some c.total_score) _ seen t m u d last)
          rest)
      e
step-Distinct _ _ (unbound tenant i actor now t m u e) d =
    let same : u ≡ write (is_bound tenant i) (release actor now) t = ground arith in
    rw same (write-Distinct (is_bound tenant i) actor now t d)
step-Distinct _ _ (archived tenant i version actor now stores t stores' u e) d =
    elim (Bool-cases (any (has_version tenant i version) stores)) [
      | inl there ↦
          let same : u ≡ update (maps_store tenant i) (release actor now) t = ground arith in
          rw same (update-Distinct (maps_store tenant i) actor now t d)
      | inr stale ↦ absurd (elim (Bool-cases (is_some (get_store tenant i stores))) [
        | inl h ↦ ground arith
        | inr h ↦ ground arith
      ])
    ]

-- Whatever sequence of manual mappings, confirmed candidates, unbindings and archived stores runs on a
-- table, each call with whatever it has read before: if no two active mappings of one tenant and
-- connection share their store or their POI at the start, no two do at the end.
pub MappingReach-Distinct :
    (s t : List Mapping) → MappingReach s t → Distinct clash s → Distinct clash t
MappingReach-Distinct s t here d = d
MappingReach-Distinct s u (next r step) d = step-Distinct _ u step (MappingReach-Distinct s _ r d)
