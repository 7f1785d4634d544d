-- ===== src/Webhooks/Process/Hints.antt =====
-- What a processed callback leaves, of backend/poi_admin/webhooks/handlers.py.
use poi_hub.Base.{
  ℕ, String, ◌≡◌, ◌≢◌, refl, sym, ◌∙◌, true, false, Option, none, some, List, arith, Bool-cases,
  Option-cases, inl, inr,
}
use poi_hub.Base.Int.{ℤ, pos, eqb_ℤ}
use poi_hub.Base.Result.{ok}
use poi_hub.Base.Rows.{find, write}
use poi_hub.Base.Rows.Laws.{find-write, find-test}
use poi_hub.Base.Json.{Json, Fields, get_int}
use poi_hub.Operations.Model.{Operation}
use poi_hub.Operations.Enqueue.{Connection}
use poi_hub.LocalLife.Products.Model.{Product}
use poi_hub.LocalLife.Products.Handlers
use poi_hub.LocalLife.Products.Handlers.{Intent, validate_intent}
use poi_hub.Webhooks.Model.{Event, has_event_id}
use poi_hub.Webhooks.Process.{
  HookDb, HookError, hinted, apply_event, event_payload, is_processed, completed,
  process_webhook_event,
}

-- the version that an accepted intent was queued for
validate_intent-version :
    (p : Product) (op : Operation) (v : Intent)
    → validate_intent p op ≡ ok v
    → (t : ℤ) × (get_int "target_version" op.payload ≡ some t) × (eqb_ℤ (pos p.version) t ≡ true)
unfolding validate_intent Handlers.require Handlers.check
validate_intent-version p op v e = elim (Option-cases (get_int "target_version" op.payload)) [
  | inl missing ↦ absurd (ground arith)
  | inr (t, there) ↦ elim (Bool-cases (eqb_ℤ (pos p.version) t)) [
    | inl same ↦ (t, there, same)
    | inr differ ↦ absurd (ground arith)
  ]
]

module _ (py_str : Json → String) (py_int : Json → Option ℤ) (parse_dt : Json → Option ℕ)
    (sha256 : String → String) (seal : Option (Fields → String)) (connections : List Connection)
    (new_ids : ℕ → String) (now : ℕ) where
  -- A callback that tells of a product makes every operation that is queued for it fail its check: if
  -- the operation would pass before the callback, it passes with no intent after it, whatever the
  -- callback's type and payload.
  pub hinted_invalidates :
      (event_type : String) (payload : Fields) (p : Product) (op : Operation) (v w : Intent)
      → validate_intent p op ≡ ok v
      → validate_intent
          (hinted py_str py_int parse_dt sha256 seal connections new_ids now event_type payload p)
          op
        ≢ ok w
  unfolding hinted
  hinted_invalidates event_type payload p op v w before after =
      let (t, there, same) = validate_intent-version p op v before in
      let (u, here, again) = validate_intent-version _ op w after in
      let one : t ≡ u = ground arith in ground arith

  completed-processed :
      (event : Event) (t : List Event) (row : Event)
      → find (has_event_id event.id) (
          write
            (has_event_id event.id)
            (completed py_str py_int parse_dt sha256 seal connections new_ids now event)
            t)
        ≡ some row
      → is_processed row.status ≡ true
  unfolding completed
  completed-processed event t row e =
      let found =
        sym (
          find-write (has_event_id event.id) (has_event_id event.id)
            (completed py_str py_int parse_dt sha256 seal connections new_ids now event) (λ x. refl)
            (λ x h. h) t)
        ∙ e in
      elim (Option-cases (find (has_event_id event.id) t)) [
        | inl missing ↦ absurd (ground arith)
        | inr (x, there) ↦
            let mine : has_event_id event.id x ≡ true =
              find-test (has_event_id event.id) t x there in
            let same : completed py_str py_int parse_dt sha256 seal connections new_ids now event x
                ≡ row =
              ground arith in
            rw (← same) refl
      ]

  -- An event is applied once: when its processing has ended without an exception, the row that it has
  -- left is processed again without any effect.
  pub process-again :
      (opened : Option (String → Option Fields)) (event : Event) (db db' : HookDb) (row : Event)
      → is_processed event.status ≡ false
      → process_webhook_event py_str py_int parse_dt sha256 seal connections new_ids now opened
          event db
        ≡ (db', none)
      → find (has_event_id event.id) db'.events ≡ some row
      → process_webhook_event py_str py_int parse_dt sha256 seal connections new_ids now opened row
          db'
        ≡ (db', none)
  unfolding process_webhook_event
  process-again opened event db db' row fresh e there = rw (done, process_webhook_event) refl
    where
      ends :
          (payload : Fields) (x : HookDb × Option HookError)
          → event_payload py_str py_int parse_dt sha256 seal connections new_ids now opened event
            ≡ some payload
          → apply_event py_str py_int parse_dt sha256 seal connections new_ids now event payload db
            ≡ x
          → is_processed row.status ≡ true
      ends payload (y, some f) read applied = absurd (ground arith)
      ends payload (y, none) read applied =
          let same : db'.events
              ≡ write (has_event_id event.id)
                  (completed py_str py_int parse_dt sha256 seal connections new_ids now event)
                  y.events =
            ground arith in
          completed-processed event y.events row (rw (← same) there)

      done : is_processed row.status ≡ true
      done =
          elim (Option-cases (
            event_payload py_str py_int parse_dt sha256 seal connections new_ids now opened
              event)) [
                | inl broken ↦ absurd (ground arith)
                | inr (payload, read) ↦ ends payload _ read refl
              ]
