-- ===== src/Stores/Operations/Deletion.antt =====
-- A deletion that runs again, of backend/poi_admin/stores/operations.py.
use poi_hub.Base.{
  ℕ, String, ◌≡◌, refl, sym, subst, Bool, true, false, Option, none, some, List, ◌==◌, arith,
  eq_iff,
}
use poi_hub.Base.Rows.{find, write}
use poi_hub.Base.Rows.Laws.{find-write, find-test}
use poi_hub.Base.Json.{Fields, get_str, field, end, str}
use poi_hub.Base.Result.{Result, ok, err, after_ok}
use poi_hub.Connections.Model.{WeChatConnection}
use poi_hub.Connections.Ports.{terminal}
use poi_hub.Connections.Service.{get_connection}
use poi_hub.Operations.Model.{Operation}
use poi_hub.Operations.Errors.{Failure, gateway}
use poi_hub.Stores.Model.{ServicePoi, get_poi}
use poi_hub.Stores.Operations.{
  PoiGateway, StoreDb, require, check, is_poi, restatused, save_status, gone, is_missing,
  gateway_for, poi_for, delete,
}

required :
    {A : Type 0} (o : Option A) (message code : String) (a : A)
    → require o message code ≡ ok a
    → o ≡ some a
unfolding require
required none message code a e = absurd (ground arith)
required (some x) message code a e = ground arith

checked : (b : Bool) (message code : String) (u : Unit) → check b message code ≡ ok u → b ≡ true
unfolding check
checked true message code u e = refl
checked false message code u e = absurd (ground arith)

restatused_key :
    (tenant i status : String) (now : ℕ) (p : ServicePoi)
    → is_poi tenant i (restatused status now p) ≡ is_poi tenant i p
unfolding restatused
restatused_key tenant i status now p = refl

restatused_status :
    (status : String) (now : ℕ) (p : ServicePoi) → (restatused status now p).remote_status ≡ status
unfolding restatused
restatused_status status now p = refl

saved :
    (op : Operation) (c : WeChatConnection) (db : StoreDb) (p : ServicePoi) (status : String)
    (now : ℕ)
    → get_str "poi_id" op.payload ≡ some p.id
    → find
        (is_poi op.tenant_id p.id)
        (write (is_poi op.tenant_id p.id) (restatused status now) db.pois)
      ≡ some (restatused status now p)
    → (p.connection_id == c.id) ≡ true
    → poi_for op c (save_status op.tenant_id p.id status now db) ≡ ok (restatused status now p)
unfolding poi_for get_poi save_status require check restatused
saved op c db p status now named row same = rw (poi_for, named, get_poi, row, same) refl

written :
    (tenant i : String) (p : ServicePoi) (status : String) (now : ℕ) (table : List ServicePoi)
    → find (is_poi tenant i) table ≡ some p
    → find (is_poi tenant i) (write (is_poi tenant i) (restatused status now) table)
      ≡ some (restatused status now p)
written tenant i p status now table row =
    rw
      (
        find-write (is_poi tenant i) (is_poi tenant i) (restatused status now)
            (restatused_key tenant i status now) (λ x h. h) table,
        row,
        find-test (is_poi tenant i) table p row,
      )
      refl

-- the row of an operation, after its status has been written
poi_for-save_status :
    (op : Operation) (c : WeChatConnection) (db : StoreDb) (p : ServicePoi) (status : String)
    (now : ℕ)
    → poi_for op c db ≡ ok p
    → poi_for op c (save_status op.tenant_id p.id status now db) ≡ ok (restatused status now p)
unfolding poi_for get_poi save_status
poi_for-save_status op c db p status now e =
    after_ok
      (require (get_str "poi_id" op.payload) "POI operation is missing poi_id"
        "invalid_operation_payload")
      _ p _
      (λ i a r1.
        after_ok (require (get_poi op.tenant_id i db.pois) "POI was not found" "poi_not_found") _ p
          _
          (λ q b r2.
            after_ok (check (q.connection_id == c.id) "POI was not found" "poi_not_found") _ p _
              (λ _ d last.
                let named = required _ _ _ i a in
                let row : find (is_poi op.tenant_id i) db.pois ≡ some q = required _ _ _ q b in
                let its : q ≡ p = ground arith in
                let mine = find-test (is_poi op.tenant_id i) db.pois q row in
                let key : p.id ≡ i = rw (← its) ((eq_iff q.id i).0 (ground arith)) in
                let same_connection : p.connection_id == c.id ≡ true =
                  rw (← its) (checked _ _ _ _ d) in
                let row_p : find (is_poi op.tenant_id p.id) db.pois ≡ some p =
                  subst (λ j. find (is_poi op.tenant_id j) db.pois ≡ some p) (sym key)
                    (subst (λ x. find (is_poi op.tenant_id i) db.pois ≡ some x) its row) in
                saved op c db p status now (rw key named)
                  (written op.tenant_id p.id p status now db.pois row_p) same_connection)
              r2)
          r1)
      e

module _ (connections : List WeChatConnection)
    (connect connect' : WeChatConnection → Result Failure PoiGateway) where
  -- the same connection, with another gateway
  gateway_for-connection :
      (op : Operation) (g : PoiGateway) (c : WeChatConnection) (g' : PoiGateway)
      → gateway_for connections connect op ≡ ok (g, c)
      → connect' c ≡ ok g'
      → gateway_for connections connect' op ≡ ok (g', c)
  unfolding gateway_for
  gateway_for-connection op g c g' e made =
      after_ok
        (require op.connection_id "POI operation connection is missing" "connection_not_found") _
        (g, c) _
        (λ i a r1.
          after_ok
            (require (get_connection op.tenant_id i connections)
              "POI operation connection was not found" "connection_not_found")
            _ (g, c) _
            (λ x b r2.
              after_ok
                (check (x.capability == "service_poi") "Connection does not support service POIs"
                  "invalid_connection")
                _ (g, c) _
                (λ u d r3.
                  after_ok (connect x) _ (g, c) _
                    (λ h _ last.
                      let its : x ≡ c = ground arith in
                      let made' : connect' x ≡ ok g' = rw its made in
                      let end' : ok (g', x) ≡ ok (g', c) = rw its refl in
                      rw (gateway_for, a, b, d, made') end')
                    r3)
                r2)
            r1)
        e

  missing_gone :
      (g' : PoiGateway) (message : String)
      → ((x : String) → g'.delete_poi x ≡ err (gateway (terminal message "poi_not_found")))
      → (x : String) → gone (g'.delete_poi x) ≡ ok tt
  unfolding gone is_missing
  missing_gone g' message missing x = rw (missing x, gone, is_missing) refl

  deleted_again :
      (now now' : ℕ) (op : Operation) (db : StoreDb) (g' : PoiGateway) (c : WeChatConnection)
      (p : ServicePoi)
      → gateway_for connections connect' op ≡ ok (g', c)
      → ((x : String) → gone (g'.delete_poi x) ≡ ok tt)
      → poi_for op c (save_status op.tenant_id p.id "deleted" now db)
        ≡ ok (restatused "deleted" now p)
      → delete connections connect' now' op (save_status op.tenant_id p.id "deleted" now db)
        ≡ ok (
          field "poi_id" (str p.id) (field "external_poi_id" (str p.external_poi_id) end),
          save_status op.tenant_id p.id "deleted" now'
              (save_status op.tenant_id p.id "deleted" now db),
        )
  unfolding delete restatused
  deleted_again now now' op db g' c p a b d = rw (delete, a, d, b p.external_poi_id) refl

  -- A deletion whose worker has crashed after it has written may run again: when the gateway then has
  -- no such POI, it answers as it did the first time, and the POI is set deleted as before.
  pub delete_again :
      (now now' : ℕ) (op : Operation) (db : StoreDb) (answer : Fields) (db' : StoreDb)
      (g' : PoiGateway) (message : String)
      → delete connections connect now op db ≡ ok (answer, db')
      → ((c : WeChatConnection) → connect' c ≡ ok g')
      → ((x : String) → g'.delete_poi x ≡ err (gateway (terminal message "poi_not_found")))
      → (db'' : StoreDb) × (delete connections connect' now' op db' ≡ ok (answer, db''))
        × (c : WeChatConnection) × (p : ServicePoi) × (poi_for op c db'' ≡ ok p)
        × (p.remote_status ≡ "deleted")
  unfolding delete
  delete_again now now' op db answer db' g' message e made missing =
      after_ok (gateway_for connections connect op) _ (answer, db') _
        (λ gc a r1.
          after_ok (poi_for op gc.1 db) _ (answer, db') _
            (λ p b r2.
              after_ok (gone (gc.0.delete_poi p.external_poi_id)) _ (answer, db') _
                (λ _ d last. again gc.0 gc.1 p a b (ground arith) (ground arith)) r2)
            r1)
        e
    where
      again :
          (g : PoiGateway) (c : WeChatConnection) (p : ServicePoi)
          → gateway_for connections connect op ≡ ok (g, c)
          → poi_for op c db ≡ ok p
          → answer ≡ field "poi_id" (str p.id) (field "external_poi_id" (str p.external_poi_id) end)
          → db' ≡ save_status op.tenant_id p.id "deleted" now db
          → (db'' : StoreDb) × (delete connections connect' now' op db' ≡ ok (answer, db''))
            × (c : WeChatConnection) × (p : ServicePoi) × (poi_for op c db'' ≡ ok p)
            × (p.remote_status ≡ "deleted")
      again g c p a b ans left =
          let first = poi_for-save_status op c db p "deleted" now b in
          (
            save_status op.tenant_id p.id "deleted" now'
                (save_status op.tenant_id p.id "deleted" now db),
            rw (ans, left)
                (deleted_again now now' op db g' c p (gateway_for-connection op g c g' a (made c))
                  (missing_gone g' message missing) first),
            c,
            restatused "deleted" now' (restatused "deleted" now p),
            poi_for-save_status op c (save_status op.tenant_id p.id "deleted" now db)
                (restatused "deleted" now p) "deleted" now' first,
            restatused_status "deleted" now' (restatused "deleted" now p),
          )
