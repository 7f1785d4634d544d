-- ===== src/Stores/Editing/Versions.antt =====
-- Edits of a store under its version, of backend/poi_admin/stores/service.py.
use poi_hub.Base.{
  ℕ, String, ◌≡◌, refl, false, some, List, [], ◌∷◌, is_some, arith, Bool-cases, inl, inr,
}
use poi_hub.Base.Rows.{any, update}
use poi_hub.Base.Rows.Laws.{find-none}
use poi_hub.Base.Json.{Fields}
use poi_hub.Base.Result.{ok}
use poi_hub.Stores.Model.{Store, Mapping, refuse, require, check, get_store}
use poi_hub.Stores.Mappings.{maps_store, release}
use poi_hub.Stores.Editing.{has_version, edited, deactivated, update_store, archive_store}

gone :
    (tenant i : String) (version : ℕ) (changes : Fields) (t : List Store)
    → any
        (has_version tenant i version)
        (update (has_version tenant i version) (edited version changes) t)
      ≡ false
unfolding has_version edited
gone tenant i version changes [] = refl
gone tenant i version changes (s ∷ t) = ground (arith, gone tenant i version changes t)

gone_archived :
    (tenant i : String) (version : ℕ) (t : List Store)
    → any
        (has_version tenant i version)
        (update (has_version tenant i version) (deactivated version) t)
      ≡ false
unfolding has_version deactivated
gone_archived tenant i version [] = refl
gone_archived tenant i version (s ∷ t) = ground (arith, gone_archived tenant i version t)

-- an edit of a version that no row has any more
update_store_stale :
    (tenant i : String) (version : ℕ) (changes : Fields) (seen t : List Store) (s : Store)
    → get_store tenant i seen ≡ some s
    → any (has_version tenant i version) t ≡ false
    → update_store tenant i version changes seen t ≡ refuse "version_conflict" 409
unfolding update_store require check
update_store_stale tenant i version changes seen t s read stale =
    rw (read, find-none (has_version tenant i version) t stale) (ground arith)

update_store-table :
    (tenant i : String) (version : ℕ) (changes : Fields) (seen t : List Store) (s : Store)
    (u : List Store)
    → update_store tenant i version changes seen t ≡ ok (s, u)
    → u ≡ update (has_version tenant i version) (edited version changes) t
unfolding update_store require check
update_store-table tenant i version changes seen t s u e = ground arith

-- Of two editors of one version of a store, the second to commit is refused with a version conflict
-- and changes nothing, whenever it has read the store, before or after the first one's commit.
pub update_store_once :
    (tenant i : String) (version : ℕ) (changes changes' : Fields) (seen t : List Store) (s : Store)
    (u seen' : List Store) (read : Store)
    → update_store tenant i version changes seen t ≡ ok (s, u)
    → get_store tenant i seen' ≡ some read
    → update_store tenant i version changes' seen' u ≡ refuse "version_conflict" 409
update_store_once tenant i version changes changes' seen t s u seen' read e r =
    rw (update_store-table tenant i version changes seen t s u e) (
      update_store_stale tenant i version changes' seen' _ read r (gone tenant i version changes t))

unmapped :
    (tenant i actor : String) (now : ℕ) (t : List Mapping)
    → any (maps_store tenant i) (update (maps_store tenant i) (release actor now) t) ≡ false
unfolding maps_store release
unmapped tenant i actor now [] = refl
unmapped tenant i actor now (m ∷ t) = ground (arith, unmapped tenant i actor now t)

-- After a store has been archived no active mapping of it is left, and no row has the version that was
-- archived.
pub archive_store_unmaps :
    (tenant i : String) (version : ℕ) (actor : String) (now : ℕ) (stores : List Store)
    (mappings : List Mapping) (stores' : List Store) (mappings' : List Mapping)
    → archive_store tenant i version actor now (stores, mappings) ≡ ok (stores', mappings')
    → (any (maps_store tenant i) mappings' ≡ false)
      × (any (has_version tenant i version) stores' ≡ false)
unfolding archive_store
archive_store_unmaps tenant i version actor now stores mappings stores' mappings' e =
    elim (Bool-cases (any (has_version tenant i version) stores)) [
      | inr stale ↦ absurd (elim (Bool-cases (is_some (get_store tenant i stores))) [
        | inl h ↦ ground arith
        | inr h ↦ ground arith
      ])
      | inl there ↦
          let a : mappings' ≡ update (maps_store tenant i) (release actor now) mappings =
            ground arith in
          let b : stores' ≡ update (has_version tenant i version) (deactivated version) stores =
            ground arith in
          (
            rw a (unmapped tenant i actor now mappings),
            rw b (gone_archived tenant i version stores),
          )
    ]
