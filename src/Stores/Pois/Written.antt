-- ===== src/Stores/Pois/Written.antt =====
-- What one result of a synchronization changes in the listing of a connection, of
-- backend/poi_admin/stores/service.py.
use poi_hub.Base.{
  ℕ, String, ◌≡◌, refl, ap, true, false, none, some, List, [], ◌∷◌, ◌++◌, ◌==◌, if◌then◌else◌,
  arith, eq_iff, eq_refl, Bool-cases, Option-cases, inl, inr,
}
use poi_hub.Base.Rows.{find, write, select}
use poi_hub.Base.Rows.Laws.{
  find-write, find-write_apart, find-write_unseen, find-write_new, select-find, find-append,
  find-test,
}
use poi_hub.Base.Json.{Json}
use poi_hub.Stores.Model.{ServicePoi}
use poi_hub.Stores.Pois.{
  PoiResult, is_remote, is_audit, refreshed, new_poi, is_pending, identified, sync_one,
}
use poi_hub.Stores.Pois.Entries.{entry, listing, entry_of}

unseen :
    (tenant c j k : String) (p : ServicePoi)
    → (j == k) ≡ false
    → is_remote tenant c j p ≡ true
    → is_remote tenant c k p ≡ false
unfolding is_remote
unseen tenant c j k p h e = ground (arith, eq_iff p.external_poi_id j, eq_iff p.external_poi_id k)

module _ (checksum : PoiResult → String) (fold : String → String) (show : Json → String) where
  kept_key :
      (now : ℕ) (r : PoiResult) (tenant c k : String) (p : ServicePoi)
      → is_remote tenant c k (refreshed checksum fold show now r p) ≡ is_remote tenant c k p
  unfolding is_remote refreshed
  kept_key now r tenant c k p = refl

  entry-refreshed :
      (now : ℕ) (r : PoiResult) (p : ServicePoi)
      → entry (refreshed checksum fold show now r p) ≡ entry_of checksum show now r
  unfolding refreshed
  entry-refreshed now r p = refl

  -- a row that waits for its audit is found by no other id, before and after it gets its own
  pending_unseen :
      (tenant c k : String) (existing : List ServicePoi) (r : PoiResult) (p : ServicePoi)
      → is_audit k ≡ false
      → is_pending checksum fold show tenant c existing r p ≡ true
      → is_remote tenant c k p ≡ false
  unfolding is_remote is_pending
  pending_unseen tenant c k existing r p h e = ground (arith, eq_iff p.external_poi_id k)

  identified_unseen :
      (tenant c k : String) (existing : List ServicePoi) (now : ℕ) (r : PoiResult) (p : ServicePoi)
      → (r.poi_id == k) ≡ false
      → is_remote tenant c k (identified checksum fold show now r p) ≡ false
  unfolding is_remote identified refreshed
  identified_unseen tenant c k existing now r p h = ground arith

  identified_seen :
      (tenant c : String) (existing : List ServicePoi) (now : ℕ) (r : PoiResult) (p : ServicePoi)
      → is_pending checksum fold show tenant c existing r p ≡ true
      → is_remote tenant c r.poi_id (identified checksum fold show now r p) ≡ true
  unfolding is_remote is_pending identified refreshed
  identified_seen tenant c existing now r p h = ground (arith, eq_refl r.poi_id)

  new_seen :
      (i tenant c k : String) (now : ℕ) (r : PoiResult)
      → is_remote tenant c k
          (refreshed checksum fold show now r (new_poi checksum fold show i tenant c now r))
        ≡ (r.poi_id == k)
  unfolding is_remote refreshed new_poi
  new_seen i tenant c k now r = ground (arith, eq_refl tenant, eq_refl c)

  module _ (i : String) (now : ℕ) (tenant c : String) (existing : List ServicePoi) (r : PoiResult)
      (k : String) (plain : is_audit k ≡ false) where
    abbrev pub after : List ServicePoi → List ServicePoi
    unfolding sync_one
    after table = (sync_one checksum fold show i now tenant c existing r table).1

    listing-appended :
        (table : List ServicePoi)
        → find (is_remote tenant c r.poi_id) table ≡ none
        → listing tenant c
            (table
              ++ refreshed checksum fold show now r (new_poi checksum fold show i tenant c now r)
                ∷ [])
            k
          ≡ (if r.poi_id == k
              then some (entry_of checksum show now r)
              else listing tenant c table k)
    listing-appended table miss =
        rw
          (find-append (is_remote tenant c k) table
            (refreshed checksum fold show now r (new_poi checksum fold show i tenant c now r)))
          (elim (Option-cases (find (is_remote tenant c k) table)) [
            | inl none' ↦
                rw (none', new_seen i tenant c k now r)
                  (elim (Bool-cases (r.poi_id == k)) [
                    | inl same ↦ rw same (ap some (entry-refreshed now r _))
                    | inr other ↦ rw other refl
                  ])
            | inr (p, found) ↦ elim (Bool-cases (r.poi_id == k)) [
              | inl same ↦
                  let e : r.poi_id ≡ k = (eq_iff r.poi_id k).0 same in
                  let clash : find (is_remote tenant c k) table ≡ none = rw (← e) miss in
                  absurd (ground arith)
              | inr other ↦ rw (found, other) refl
            ]
          ])

    listing-written :
        (table : List ServicePoi) (p : ServicePoi)
        → find (is_remote tenant c r.poi_id) table ≡ some p
        → listing tenant c
            (write (is_remote tenant c r.poi_id) (refreshed checksum fold show now r) table)
            k
          ≡ (if r.poi_id == k
              then some (entry_of checksum show now r)
              else listing tenant c table k)
    listing-written table p found = elim (Bool-cases (r.poi_id == k)) [
      | inl same ↦
          let e : r.poi_id ≡ k = (eq_iff r.poi_id k).0 same in
          let w : find (is_remote tenant c k)
                (write (is_remote tenant c r.poi_id) (refreshed checksum fold show now r) table)
              ≡ some (refreshed checksum fold show now r p) =
            rw (← e) (
              rw
                (
                  find-write (is_remote tenant c r.poi_id) (is_remote tenant c r.poi_id)
                      (refreshed checksum fold show now r) (kept_key now r tenant c r.poi_id)
                      (λ x h. h) table,
                  found,
                  find-test (is_remote tenant c r.poi_id) table p found,
                )
                refl) in
          rw (same, w) (ap some (entry-refreshed now r p))
      | inr other ↦
          rw
            (
              other,
              find-write_apart (is_remote tenant c k) (is_remote tenant c r.poi_id)
                  (refreshed checksum fold show now r) (kept_key now r tenant c k)
                  (λ x h. unseen tenant c r.poi_id k x other h) table,
            )
            refl
    ]

    listing-identified :
        (table : List ServicePoi) (p : ServicePoi) (rest : List ServicePoi)
        → find (is_remote tenant c r.poi_id) table ≡ none
        → select (is_pending checksum fold show tenant c existing r) table ≡ p ∷ rest
        → listing tenant c
            (write
              (is_pending checksum fold show tenant c existing r)
              (identified checksum fold show now r)
              table)
            k
          ≡ (if r.poi_id == k
              then some (entry_of checksum show now r)
              else listing tenant c table k)
    unfolding identified
    listing-identified table p rest miss waits = elim (Bool-cases (r.poi_id == k)) [
      | inl same ↦
          let e : r.poi_id ≡ k = (eq_iff r.poi_id k).0 same in
          let w : find (is_remote tenant c k) (
                write (is_pending checksum fold show tenant c existing r)
                  (identified checksum fold show now r) table)
              ≡ some (identified checksum fold show now r p) =
            rw (← e) (
              find-write_new (is_remote tenant c r.poi_id)
                (is_pending checksum fold show tenant c existing r)
                (identified checksum fold show now r)
                (λ x h. identified_seen tenant c existing now r x h) table p miss
                (select-find (is_pending checksum fold show tenant c existing r) table p rest
                  waits)) in
          rw (same, w) (ap some (entry-refreshed now r (record p { external_poi_id = r.poi_id })))
      | inr other ↦
          rw
            (
              other,
              find-write_unseen (is_remote tenant c k)
                  (is_pending checksum fold show tenant c existing r)
                  (identified checksum fold show now r)
                  (λ x h. pending_unseen tenant c k existing r x plain h)
                  (λ x h. identified_unseen tenant c k existing now r x other) table,
            )
            refl
    ]

    listing-missed :
        (table ps : List ServicePoi)
        → find (is_remote tenant c r.poi_id) table ≡ none
        → select (is_pending checksum fold show tenant c existing r) table ≡ ps
        → listing tenant c (after table) k ≡ (
            if r.poi_id == k then some (entry_of checksum show now r) else listing tenant c table k)
    unfolding sync_one
    listing-missed table [] miss e = rw (after, sync_one, miss, e) (listing-appended table miss)
    listing-missed table (p ∷ []) miss e =
        rw (after, sync_one, miss, e) (listing-identified table p [] miss e)
    listing-missed table (p ∷ q ∷ ps) miss e =
        rw (after, sync_one, miss, e) (listing-appended table miss)

    pub listing-sync_one :
        (table : List ServicePoi)
        → listing tenant c (after table) k ≡ (
            if r.poi_id == k then some (entry_of checksum show now r) else listing tenant c table k)
    unfolding sync_one
    listing-sync_one table = elim (Option-cases (find (is_remote tenant c r.poi_id) table)) [
      | inr (p, found) ↦ rw (after, sync_one, found) (listing-written table p found)
      | inl miss ↦
          listing-missed table (select (is_pending checksum fold show tenant c existing r) table)
            miss refl
    ]
