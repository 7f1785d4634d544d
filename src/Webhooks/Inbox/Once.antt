-- ===== src/Webhooks/Inbox/Once.antt =====
-- A callback that arrives again, of backend/poi_admin/webhooks/service.py.
use poi_hub.Base.{
  ℕ, String, ◌≡◌, refl, Bool, true, Option, none, some, List, [], ◌∷◌, ◌++◌, ◌==◌, ◌⊎◌, arith,
  eq_refl,
}
use poi_hub.Base.Result.{ok}
use poi_hub.Base.Rows.{find}
use poi_hub.Base.Rows.Laws.{find-append}
use poi_hub.Base.Json.{Json, Fields}
use poi_hub.Operations.Enqueue.{Connection}
use poi_hub.Webhooks.Model.{Event, has_fingerprint}
use poi_hub.Webhooks.Inbox.{Draw, fingerprint, new_event, known, ingest}

abbrev same_fingerprint : Event → Event → Bool
same_fingerprint a b = has_fingerprint a.connection_id a.fingerprint b

module _ (canonical : Fields → String) (sha256 : String → String) (seal : Fields → String)
    (py_str : Json → String) (webhook_max_attempts : ℕ) where
  abbrev pub knows : Connection → Fields → List Event → Option Event
  unfolding known
  knows c payload table = known canonical sha256 seal py_str webhook_max_attempts c payload table

  known-new :
      (draw : Draw) (c : Connection) (payload : Fields) (t : List Event)
      → knows c payload t ≡ none
      → knows c payload
          (t ++ new_event canonical sha256 seal py_str webhook_max_attempts draw c payload ∷ [])
        ≡ some (new_event canonical sha256 seal py_str webhook_max_attempts draw c payload)
  unfolding known new_event fingerprint
  known-new draw c payload t h =
      rw
        (
          find-append (has_fingerprint c.id (sha256 (canonical payload))) t
              (new_event canonical sha256 seal py_str webhook_max_attempts draw c payload),
          h,
          eq_refl c.id,
          eq_refl (sha256 (canonical payload)),
        )
        refl

  -- The first query read the table of the commit, or an older one without the callback. After a call
  -- that returned, the same payload for the same connection, whatever id and time it draws and
  -- whatever such table its query reads, is answered with the same event as a duplicate, and adds
  -- nothing.
  pub ingest-again :
      (connections : List Connection) (draw draw' : Draw) (connection : String) (payload : Fields)
      (c : Connection) (seen t seen' : List Event) (e : Event) (duplicate : Bool) (u : List Event)
      → find (λ (x : Connection). x.id == connection) connections ≡ some c
      → (knows c payload seen ≡ none) ⊎ (knows c payload seen ≡ knows c payload t)
      → (knows c payload seen' ≡ none) ⊎ (knows c payload seen' ≡ knows c payload u)
      → ingest canonical sha256 seal py_str webhook_max_attempts connections draw connection payload
          seen t
        ≡ ok ((e, duplicate), u)
      → ingest canonical sha256 seal py_str webhook_max_attempts connections draw' connection
          payload seen' u
        ≡ ok ((e, true), u)
  unfolding ingest
  ingest-again connections draw draw' connection payload c seen t seen' e duplicate u there read
        read' h =
      ground (arith, known-new draw c payload t)
