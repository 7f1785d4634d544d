-- ===== src/Stores/Pois/Listing.antt =====
-- What a synchronization of POIs makes of a connection's listing, of
-- backend/poi_admin/stores/service.py.
use poi_hub.Base.{
  ℕ, suc, String, ◌≡◌, refl, ap, true, false, not, some, List, [], ◌∷◌, ◌&&◌, ◌==◌, ◌∙◌,
  if◌then◌else◌, arith, eq_iff, Bool-cases, Option-cases, inl, inr,
}
use poi_hub.Base.Rows.{find, any, select}
use poi_hub.Base.Rows.Laws.{find-update, find-test}
use poi_hub.Base.Json.{Json}
use poi_hub.Base.Result.{Result, ok, after_ok}
use poi_hub.Connections.Model.{WeChatConnection}
use poi_hub.Operations.Errors.{Failure}
use poi_hub.Stores.Model.{ServicePoi}
use poi_hub.Stores.Pois.{
  PoiResult, of_connection, is_remote, is_audit, is_provisional, sync_one, sync_all, is_stale,
  marked, mark_stale, sync_pois, listed_by, list_pois, check,
}
use poi_hub.Stores.Pois.Entries.{entry, map_some, listing, dropped, overlaid, relisted}
use poi_hub.Stores.Pois.Written.{listing-sync_one}

module _ (checksum : PoiResult → String) (fold : String → String) (show : Json → String) where
  listing-sync_all :
      (new_id : ℕ → String) (n now : ℕ) (tenant c : String) (existing : List ServicePoi)
      (rs : List PoiResult) (table : List ServicePoi) (k : String)
      → is_audit k ≡ false
      → listing tenant c (sync_all checksum fold show new_id n now tenant c existing rs table).1 k
        ≡ overlaid checksum show now k rs (listing tenant c table k)
  unfolding sync_all
  listing-sync_all new_id n now tenant c existing [] table k plain = refl
  listing-sync_all new_id n now tenant c existing (r ∷ rs) table k plain =
      listing-sync_all new_id (suc n) now tenant c existing rs
        (sync_one checksum fold show (new_id n) now tenant c existing r table).1 k plain
      ∙ ap (overlaid checksum show now k rs)
          (listing-sync_one checksum fold show (new_id n) now tenant c existing r k plain table)

stale_here :
    (tenant c k : String) (remotes : List PoiResult) (p : ServicePoi)
    → is_remote tenant c k p ≡ true
    → is_stale tenant c remotes p ≡ not (any (λ r. r.poi_id == k) remotes) && not (is_provisional k)
unfolding is_remote is_stale
stale_here tenant c k remotes p h =
    let e : p.external_poi_id ≡ k = (eq_iff p.external_poi_id k).0 (ground arith) in
    rw (← e) (ground arith)

marked_key :
    (now : ℕ) (tenant c k : String) (p : ServicePoi)
    → is_remote tenant c k (marked now p) ≡ is_remote tenant c k p
unfolding is_remote marked
marked_key now tenant c k p = refl

entry-marked : (now : ℕ) (p : ServicePoi) → entry (marked now p) ≡ dropped now (entry p)
unfolding marked
entry-marked now p = refl

listing-mark_stale :
    (now : ℕ) (tenant c k : String) (remotes : List PoiResult) (table : List ServicePoi)
    → listing tenant c (mark_stale now tenant c remotes table) k ≡ (
        if not (any (λ r. r.poi_id == k) remotes) && not (is_provisional k)
        then map_some (dropped now) (listing tenant c table k)
        else listing tenant c table k)
unfolding mark_stale
listing-mark_stale now tenant c k remotes table =
    rw
      (find-update (is_remote tenant c k) (is_stale tenant c remotes) (marked now)
        (marked_key now tenant c k) table)
      (elim (Option-cases (find (is_remote tenant c k) table)) [
        | inl miss ↦
            rw miss
              (elim (Bool-cases
                (not (any (λ r. r.poi_id == k) remotes) && not (is_provisional k))) [
                  | inl t ↦ rw t refl
                  | inr t ↦ rw t refl
                ])
        | inr (p, found) ↦
            rw
              (
                found,
                stale_here tenant c k remotes p (find-test (is_remote tenant c k) table p found),
              )
              (elim (Bool-cases
                (not (any (λ r. r.poi_id == k) remotes) && not (is_provisional k))) [
                  | inl t ↦ rw t (ap some (entry-marked now p))
                  | inr t ↦ rw t refl
                ])
      ])

-- After a synchronization with a gateway that answers `remotes`, each remote id that does not start
-- with "audit:" has the entry of the last result with this id. Without one, the entry that was
-- there is set deleted, or is kept if the id is provisional.
pub sync_pois-listing :
    (checksum : PoiResult → String) (fold : String → String) (show : Json → String)
    (new_id : ℕ → String) (now : ℕ) (tenant : String) (c : WeChatConnection)
    (remotes : List PoiResult) (mock : Result Failure (List PoiResult)) (table : List ServicePoi)
    (k : String) (ids : List String) (table' : List ServicePoi)
    → is_audit k ≡ false
    → sync_pois checksum fold show new_id now tenant c (some (ok remotes)) mock table
      ≡ ok (ids, table')
    → listing tenant c.id table' k
      ≡ relisted checksum show now k remotes (listing tenant c.id table k)
unfolding sync_pois listed_by list_pois
sync_pois-listing checksum fold show new_id now tenant c remotes mock table k ids table' plain e =
    after_ok (check (c.tenant_id == tenant) "connection_not_found" 404) _ (ids, table') _
      (λ _ _ rest.
        after_ok (check (c.capability == "service_poi") "invalid_connection" 422) _ (ids, table') _
          (λ _ _ last.
            let same : table'
                ≡ (sync_all checksum fold show new_id 0 now tenant c.id
                    (select (of_connection tenant c.id) table) remotes
                    (mark_stale now tenant c.id remotes table)).1 =
              ground arith in
            rw same (
              listing-sync_all checksum fold show new_id 0 now tenant c.id
                (select (of_connection tenant c.id) table) remotes
                (mark_stale now tenant c.id remotes table) k plain
              ∙ ap (overlaid checksum show now k remotes)
                  (listing-mark_stale now tenant c.id k remotes table)))
          rest)
      e
