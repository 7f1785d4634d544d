-- ===== src/LocalLife/Vouchers/Handlers.antt =====
-- The handlers of voucher operations, of backend/poi_admin/local_life/vouchers.py.
pub mod Outcomes
use poi_hub.Base.{
  ℕ, String, Bool, true, false, not, Option, none, some, List, [], ◌∷◌, ◌&&◌, ◌||◌, ◌==◌, opt_eq,
  is_some, if◌then◌else◌,
}
use poi_hub.Base.Text.{codes, starts_with}
use poi_hub.Base.Result.{Result, ok, err, ◌>>=◌, ◌>>◌}
use poi_hub.Base.Rows.{find}
use poi_hub.Base.Json.{Json, null, str, bool, Fields, end, field, get, get_str}
use poi_hub.Connections.Ports.{GatewayError}
use poi_hub.Operations.Model.{Operation}
use poi_hub.Operations.Errors.{Failure, gateway, timeout, transport, other}
use poi_hub.Operations.Enqueue.{Connection, owns}
use poi_hub.LocalLife.Products.Handlers.{raise, require, check, is_local_life}
use poi_hub.LocalLife.Vouchers.Model.{Voucher, VoucherDb, VoucherResult, get_voucher, save_voucher}
use poi_hub.LocalLife.Vouchers.Remote.{apply_remote}

-- the calls of `LocalLifeGateway` on vouchers
pub record VoucherGateway : Type 0 where
  -- code, SKU, request number, store, name of the store, reservation
  pub consume_voucher :
      String
      → String
      → String
      → String
      → Option String
      → Option String
      → Result Failure VoucherResult
  -- code, SKU, request number of the revocation, and of the consumption
  pub revoke_consumption : String → String → String → Option String → Result Failure VoucherResult
  pub get_voucher : String → String → Result Failure VoucherResult

-- `GatewayTransientError` with one of two codes, or `TimeoutError`: the call may have happened
unfoldable pub is_uncertain : Failure → Bool
is_uncertain (gateway e) = e.retryable && (e.code == "timeout" || e.code == "upstream_unavailable")
is_uncertain timeout = true
is_uncertain transport = false
is_uncertain other = false

-- `payload.get("entity_id", payload.get("voucher_id"))`, if it is a text
unfoldable pub entity_id : Fields → Option String
entity_id d = elim (get "entity_id" d) [
  | none ↦ get_str "voucher_id" d
  | some (str s) ↦ some s
  | some _ ↦ none
]

abbrev pub truthy : Option String → Option String
truthy none = none
truthy (some s) = if s == "" then none else some s

-- `opened` is `decrypt_secret_bundle` under the key of the settings, where none is its `ValueError`; it
-- is none without settings.
unfoldable pub operational_code : Option (String → Option Fields) → Voucher → Result Failure String
unfolding starts_with
operational_code opened v = elim (truthy v.code_ciphertext) [
  | none ↦
      if not (v.external_voucher_id == "")
        && not (starts_with (codes "voucher:") (codes v.external_voucher_id))
      then ok v.external_voucher_id
      else raise "券码内容缺失" "voucher_code_missing"
  | some sealed ↦ elim opened [
    | none ↦ raise "券码解密配置缺失" "voucher_decryption_unavailable"
    | some f ↦ elim (f sealed) [
      | none ↦ raise "券码无法解密" "voucher_decryption_failed"
      | some d ↦ elim (truthy (get_str "code" d)) [
        | none ↦ raise "券码内容无效" "voucher_decryption_failed"
        | some c ↦ ok c
      ]
    ]
  ]
]

abbrev pub voucher_reply : Voucher → Fields → Fields
voucher_reply v rest =
    field "entity_id" (str v.id) (field "voucher_id" (str v.id) (field "state" (str v.state) rest))

-- the voucher after a consumption under this request number
abbrev pub consumed : VoucherResult → String → ℕ → Voucher → Voucher
unfolding apply_remote
consumed r request now v = record (apply_remote r now v) { last_consume_request_no = some request }

-- A remote voucher that is consumed at the store, or at a store that is not told.
unfoldable pub consumed_at_store : String → VoucherResult → Bool
consumed_at_store store r =
    r.state == "consumed"
    && (not (is_some r.consume_store_id) || opt_eq r.consume_store_id (some store))

-- `connect` is the rest of `ConnectionService.gateway`, which makes the client of a connection.
module _ (connections : List Connection) (connect : String → Result Failure VoucherGateway)
    (opened : Option (String → Option Fields)) where
  unfoldable pub gateway_for : Operation → Voucher → Result Failure VoucherGateway
  unfolding owns require
  gateway_for op v = do
    c ←
        require
          (find
            (λ (c : Connection). owns op.tenant_id v.connection_id c && is_local_life c.capability)
            connections)
          "连接不存在" "connection_not_found"
    connect c.id

  -- what follows the answer to the call, by asking again where the call may have happened
  unfoldable pub settle_consume :
      VoucherGateway
      → Voucher
      → String
      → String
      → String
      → String
      → ℕ
      → VoucherDb
      → Result Failure VoucherResult
      → Result Failure (Fields × VoucherDb)
  unfolding is_uncertain consumed_at_store apply_remote
  settle_consume g v code sku request store now db (ok r) =
      let w = consumed r request now v in
      ok (voucher_reply w (field "reconciled" (bool false) end), save_voucher w db)
  settle_consume g v code sku request store now db (err e) =
      if not (is_uncertain e) then err e else elim (g.get_voucher code sku) [
        | err other_failure ↦ err other_failure
        | ok r ↦
            if consumed_at_store store r
            then (let w = consumed r request now v in
                ok (voucher_reply w (field "reconciled" (bool true) end), save_voucher w db))
            else err e
      ]

  unfoldable pub consume : Operation → ℕ → VoucherDb → Result Failure (Fields × VoucherDb)
  unfolding entity_id require get_voucher gateway_for operational_code settle_consume
  consume op now db = do
    i ← require (entity_id op.payload) "核销操作参数无效" "invalid_operation_payload"
    store ← require (get_str "out_store_id" op.payload) "核销操作参数无效" "invalid_operation_payload"
    request ←
        require (get_str "consume_request_no" op.payload) "核销操作参数无效" "invalid_operation_payload"
    v ← require (get_voucher op.tenant_id i db) "券码不存在" "voucher_not_found"
    sku ← require (truthy v.external_sku_id) "券码缺少微信 SKU 标识" "voucher_sku_missing"
    g ← gateway_for op v
    code ← operational_code opened v
    settle_consume g v code sku request store now db (
        g.consume_voucher code sku request store (truthy (get_str "consume_store_name" op.payload))
          (truthy (get_str "reserve_no" op.payload)))

  unfoldable pub settle_revoke :
      VoucherGateway
      → Voucher
      → String
      → String
      → ℕ
      → VoucherDb
      → Result Failure VoucherResult
      → Result Failure (Fields × VoucherDb)
  unfolding is_uncertain apply_remote
  settle_revoke g v code sku now db (ok r) =
      let w = record (apply_remote r now v) { last_consume_request_no = none } in
      ok (voucher_reply w end, save_voucher w db)
  settle_revoke g v code sku now db (err e) =
      if not (is_uncertain e) then err e else elim (g.get_voucher code sku) [
        | err other_failure ↦ err other_failure
        | ok r ↦
            if r.state == "available"
            then (let w = apply_remote r now v in
                ok (voucher_reply w (field "reconciled" (bool true) end), save_voucher w db))
            else err e
      ]

  unfoldable pub revoke : Operation → ℕ → VoucherDb → Result Failure (Fields × VoucherDb)
  unfolding entity_id require get_voucher gateway_for operational_code settle_revoke
  revoke op now db = do
    i ← require (entity_id op.payload) "撤销操作参数无效" "invalid_operation_payload"
    v ← require (get_voucher op.tenant_id i db) "券码不存在" "voucher_not_found"
    sku ← require (truthy v.external_sku_id) "券码缺少微信 SKU 标识" "voucher_sku_missing"
    g ← gateway_for op v
    code ← operational_code opened v
    request ←
        require (get_str "revoke_request_no" op.payload) "撤销操作参数无效" "invalid_operation_payload"
    settle_revoke g v code sku now db
        (g.revoke_consumption code sku request (get_str "consume_request_no" op.payload))
