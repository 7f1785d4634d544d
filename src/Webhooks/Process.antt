-- ===== src/Webhooks/Process.antt =====
-- `process_webhook_event` of backend/poi_admin/webhooks/handlers.py. What a failing event has changed
-- before it raised stays in the session, so the tables stand beside the failure.
pub mod Hints
use poi_hub.Base.{
  ℕ, suc, String, ◌+◌, ◌*◌, Bool, true, false, not, Option, none, some, List, [], ◌∷◌, ◌++◌, ◌&&◌,
  ◌||◌, ◌==◌, eqb, opt_eq, is_some, if◌then◌else◌,
}
use poi_hub.Base.Int.{ℤ, pos, negsuc}
use poi_hub.Base.Text.{codes, casefold, same_text, occurs_in, strip_text}
use poi_hub.Base.Result.{Result, ok, err}
use poi_hub.Base.Rows.{find, any, select, update, write}
use poi_hub.Base.Json.{
  is_truthy, or_value, Json, null, bool, int, str, arr, obj, Items, nil, cons, Fields, end, field,
  get, get_str,
}
use poi_hub.Operations.Enqueue.{Connection}
use poi_hub.LocalLife.Products.Handlers.{is_local_life}
use poi_hub.LocalLife.Products.Model.{Product}
use poi_hub.LocalLife.Vouchers.Model.{Voucher, VoucherError, VoucherResult, multiple_results}
use poi_hub.LocalLife.Vouchers.Remote.{upsert_remote_voucher}
use poi_hub.Webhooks.Model.{Event, EventStatus, processed, processing, is_processing, has_event_id}

-- `LocalOrder`, as far as a callback writes it
pub record Order : Type 0 where
  pub id : String
  pub tenant_id : String
  pub connection_id : String
  pub external_order_id : String
  pub status : String

pub record HookDb : Type 0 where
  pub events : List Event
  pub products : List Product
  pub orders : List Order
  pub vouchers : List Voucher

-- what processing raises: of a voucher, of an ambiguous product, or of the decryption
pub data HookError : Type 0 where
  voucher_error : VoucherError → HookError
  ambiguous_product : HookError
  decryption_failed : HookError

-- Processing goes on unless it has raised.
abbrev and_then :
    HookDb × Option HookError → (HookDb → HookDb × Option HookError) → HookDb × Option HookError
and_then (db, some e) next_step = (db, some e)
and_then (db, none) next_step = next_step db

abbrev non_empty : String → Option String
non_empty s = if s == "" then none else some s

is_type : String → String → Bool
unfolding casefold same_text
is_type event_type t = same_text (casefold (codes event_type)) (codes t)

has_part : String → String → Bool
unfolding casefold occurs_in
has_part event_type t = occurs_in (codes t) (casefold (codes event_type))

abbrev pub is_processed : EventStatus → Bool
is_processed processed = true
is_processed _ = false

-- `py_str` is `str` of a value, and `py_int` is `int` of it, where none is `TypeError` or `ValueError`;
-- the others are those of the vouchers. `new_ids` gives the ids of the new rows.
module _ (py_str : Json → String) (py_int : Json → Option ℤ) (parse_dt : Json → Option ℕ)
    (sha256 : String → String) (seal : Option (Fields → String)) (connections : List Connection)
    (new_ids : ℕ → String) (now : ℕ) where
  -- `str(value or "")`
  abbrev text_or_empty : Option Json → String
  unfolding is_truthy
  text_or_empty v = elim (or_value v none) [ none ↦ "" | some w ↦ py_str w ]

  -- `_event_product_id`
  unfoldable event_product_id : Fields → Option String
  unfolding is_truthy
  event_product_id payload =
      elim (or_value (get "product_id" payload)
        (or_value (get "ProductId" payload) (get "out_product_id" payload))) [
          | none ↦ none
          | some null ↦ none
          | some v ↦ some (py_str v)
        ]

  -- `int(item.get("status", 1))`
  state_number : Fields → Option ℤ
  state_number item = elim (get "status" item) [ none ↦ some (pos 1) | some v ↦ py_int v ]

  -- `states.get(int(item.get("status", 1)), "available")`
  unfoldable voucher_state : Fields → String
  unfolding state_number
  voucher_state item = elim (state_number item) [
    | none ↦ "available"
    | some (negsuc n) ↦ "available"
    | some (pos n) ↦
        if eqb n 2
        then "consumed"
        else if eqb n 3
        then "refunded"
        else if eqb n 4
        then "expired"
        else if eqb n 5
        then "reserved"
        else "available"
  ]

  unfoldable pub is_order : Event → Connection → String → Order → Bool
  is_order event c external o =
      o.tenant_id == event.tenant_id && o.connection_id == c.id && o.external_order_id == external

  -- the order of an item, which is added when it is not known
  unfoldable item_order : Event → Connection → String → String → HookDb → Option String × HookDb
  unfolding is_order
  item_order event c external new_id db =
      if external == "" then (none, db) else elim (find (is_order event c external) db.orders) [
        | some o ↦ (some o.id, db)
        | none ↦ (
          some new_id,
          record db {
            orders =
                db.orders
                ++ (record {
                  id = new_id;
                  tenant_id = event.tenant_id;
                  connection_id = c.id;
                  external_order_id = external;
                  status = "paid";
                })
                  ∷ [];
          },
        )
      ]

  unfoldable item_result : String → Fields → VoucherResult
  unfolding voucher_state is_truthy
  item_result code item = record {
    external_id = code;
    state = voucher_state item;
    product_id = non_empty (text_or_empty (get "product_id" item));
    consume_store_id =
        non_empty
          (text_or_empty (or_value (get "out_store_id" item) (get "consume_store_name" item)));
    raw = item;
  }

  unfoldable save_item :
      Event → Connection → ℕ → String → Fields → Option String × HookDb → HookDb × Option HookError
  unfolding upsert_remote_voucher item_result
  save_item event c n code item (order, db) =
      elim (upsert_remote_voucher py_str parse_dt sha256 seal connections (new_ids (2 * n + 1)) now
        event.tenant_id c.id (item_result code item) order db.vouchers) [
          | ok (v, vouchers) ↦ (record db { vouchers = vouchers }, none)
          | err e ↦ (db, some (voucher_error e))
        ]

  unfoldable voucher_item : Event → Connection → ℕ → Json → HookDb → HookDb × Option HookError
  unfolding item_order save_item strip_text is_truthy
  voucher_item event c n (obj item) db = elim (get_str "code" item) [
    | none ↦ (db, none)
    | some code ↦
        if code == ""
        then (db, none)
        else save_item event c n code item (
            item_order event c (strip_text (text_or_empty (get "order_id" item))) (new_ids (2 * n))
              db)
  ]
  voucher_item event c n other db = (db, none)

  -- the items in turn, up to the first that raises
  unfoldable voucher_items : Event → Connection → ℕ → Items → HookDb → HookDb × Option HookError
  unfolding voucher_item
  voucher_items event c n nil db = (db, none)
  voucher_items event c n (cons x xs) db =
      and_then (voucher_item event c n x db) (λ db'. voucher_items event c (suc n) xs db')

  -- the products that an identifier of the callback names
  unfoldable names_product : Event → Connection → String → Product → Bool
  names_product event c i p =
      p.tenant_id == event.tenant_id
      && p.connection_id == c.id
      && (opt_eq p.external_product_id (some i) || p.merchant_product_id == i)

  -- the status that a callback tells of a product; the words are tried in this order
  unfoldable hinted_status : String → Fields → String → String
  unfolding is_type has_part
  hinted_status event_type payload status =
      if has_part event_type "audit"
      then elim (get "status" payload) [ none ↦ "under_review" | some v ↦ py_str v ]
      else if has_part event_type "listing"
          || is_type event_type "product_listed"
          || is_type event_type "listed"
      then "listed"
      else if has_part event_type "delist"
          || is_type event_type "product_delisted"
          || is_type event_type "delisted"
      then "delisted"
      else status

  unfoldable pub hinted : String → Fields → Product → Product
  unfolding hinted_status
  hinted event_type payload p = record p {
    remote_status = hinted_status event_type payload p.remote_status;
    last_synced_at = some now;
    version = p.version + 1;
  }

  unfoldable product_hint : Event → Connection → Fields → HookDb → HookDb × Option HookError
  unfolding event_product_id names_product hinted
  product_hint event c payload db = elim (event_product_id payload) [
    | none ↦ (db, none)
    | some i ↦ if i == "" then (db, none) else elim (select (names_product event c i) db.products) [
      | [] ↦ (db, none)
      | p ∷ [] ↦ (
        record db {
          products = update (names_product event c i) (hinted event.event_type payload) db.products;
        },
        none,
      )
      | p ∷ q ∷ rest ↦ (db, some ambiguous_product)
    ]
  ]

  -- the vouchers that a callback tells of
  unfoldable voucher_list : Event → Connection → Fields → HookDb → HookDb × Option HookError
  unfolding is_type voucher_items
  voucher_list event c payload db =
      if is_type event.event_type "channels_ec_voucher_send_succ"
      then elim (get "voucher_list" payload) [
        | some (arr items) ↦ voucher_items event c 0 items db
        | some other ↦ (db, none)
        | none ↦ (db, none)
      ]
      else (db, none)

  -- the supported changes, for a connection of Local Life
  unfoldable pub apply_event : Event → Fields → HookDb → HookDb × Option HookError
  unfolding voucher_list product_hint
  apply_event event payload db =
      elim (find (λ (c : Connection). c.id == event.connection_id) connections) [
        | none ↦ (db, none)
        | some c ↦
            if is_local_life c.capability
            then and_then (voucher_list event c payload db) (product_hint event c payload)
            else (db, none)
      ]

  -- A claimed event has counted its attempt already.
  unfoldable pub completed : Event → Event → Event
  completed event e = record e {
    status = processed;
    processed_at = some now;
    attempt_count = if is_processing event.status then e.attempt_count else event.attempt_count + 1;
    error_message = none;
    worker_id = none;
    lease_expires_at = none;
  }

  -- `opened` is `decrypt_secret_bundle` under the key of the settings, where none is its exception;
  -- it is none without settings.
  unfoldable pub event_payload : Option (String → Option Fields) → Event → Option Fields
  event_payload none event = some event.payload
  event_payload (some f) event = elim event.encrypted_payload [
    | none ↦ some event.payload
    | some s ↦ if s == "" then some event.payload else f s
  ]

  unfoldable pub process_webhook_event :
      Option (String → Option Fields) → Event → HookDb → HookDb × Option HookError
  unfolding event_payload apply_event completed
  process_webhook_event opened event db =
      if is_processed event.status then (db, none) else elim (event_payload opened event) [
        | none ↦ (db, some decryption_failed)
        | some payload ↦ and_then (apply_event event payload db) (λ (db' : HookDb). (
          record db' { events = write (has_event_id event.id) (completed event) db'.events },
          none,
        ))
      ]
