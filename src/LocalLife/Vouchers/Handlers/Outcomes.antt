-- ===== src/LocalLife/Vouchers/Handlers/Outcomes.antt =====
-- What the handlers of backend/poi_admin/local_life/vouchers.py leave of a voucher.
use poi_hub.Base.{
  ℕ, String, ◌≡◌, refl, Bool, true, false, Option, none, some, List, is_some, ◌==◌, arith,
  Bool-cases, Option-cases, inl, inr, ◌⊎◌, eq_iff, opt_eq_eq, and_left, if◌then◌else◌,
}
use poi_hub.Base.Result.{Result, ok, err, after_ok}
use poi_hub.Base.Json.{bool, Fields, end, field, get, get_str}
use poi_hub.Operations.Model.{Operation}
use poi_hub.Operations.Errors.{Failure, gateway, timeout, transport, other}
use poi_hub.Operations.Enqueue.{Connection}
use poi_hub.LocalLife.Products.Handlers.{require}
use poi_hub.LocalLife.Vouchers.Model.{Voucher, VoucherDb, VoucherResult, get_voucher, save_voucher}
use poi_hub.LocalLife.Vouchers.Remote.{apply_remote}
use poi_hub.LocalLife.Vouchers.Handlers.{
  VoucherGateway, is_uncertain, truthy, entity_id, operational_code, voucher_reply, consumed,
  consumed_at_store, gateway_for, settle_consume, consume, settle_revoke, revoke,
}

require-ok :
    {A : Type 0} (o : Option A) (message code : String) (a : A)
    → require o message code ≡ ok a
    → o ≡ some a
unfolding require
require-ok none message code a e = absurd (ground arith)
require-ok (some b) message code a e = ground arith

-- the call may have happened: a time-out, or an error that may be retried with one of two codes
abbrev pub IsUncertain : Failure → Type 0
IsUncertain (gateway e) =
    (e.retryable ≡ true) × ((e.code ≡ "timeout") ⊎ (e.code ≡ "upstream_unavailable"))
IsUncertain timeout = Unit
IsUncertain transport = ⊥
IsUncertain other = ⊥

is_uncertain-IsUncertain : (x : Failure) → is_uncertain x ≡ true → IsUncertain x
unfolding is_uncertain
is_uncertain-IsUncertain (gateway e) h = (
  and_left _ _ h,
  elim (Bool-cases (e.code == "timeout")) [
    | inl late ↦ inl ((eq_iff e.code "timeout").0 late)
    | inr known ↦ inr ((eq_iff e.code "upstream_unavailable").0 (ground arith))
  ],
)
is_uncertain-IsUncertain timeout h = tt
is_uncertain-IsUncertain transport h = absurd (ground arith)
is_uncertain-IsUncertain other h = absurd (ground arith)

-- the voucher is consumed, at this store or at one that is not told
abbrev pub IsConsumedAt : String → VoucherResult → Type 0
IsConsumedAt store r =
    (r.state ≡ "consumed") × ((r.consume_store_id ≡ none) ⊎ (r.consume_store_id ≡ some store))

consumed_at_store-IsConsumedAt :
    (store : String) (r : VoucherResult) → consumed_at_store store r ≡ true → IsConsumedAt store r
unfolding consumed_at_store
consumed_at_store-IsConsumedAt store r h = (
  (eq_iff r.state "consumed").0 (and_left _ _ h),
  elim (Option-cases r.consume_store_id) [
    | inl untold ↦ inl untold
    | inr (s, told) ↦ inr (opt_eq_eq r.consume_store_id (some store) (ground arith))
  ],
)

abbrev pub IsAvailable : VoucherResult → Type 0
IsAvailable r = r.state ≡ "available"

-- Where a remote result comes from: the answer to the call, or, where the call may have happened all the
-- same, the answer to asking for the voucher, which must fit.
abbrev pub Told :
    Result Failure VoucherResult
    → Result Failure VoucherResult
    → (VoucherResult → Type 0)
    → VoucherResult
    → Bool
    → Type 0
Told called asked Fits remote reconciled =
    ((reconciled ≡ false) × (called ≡ ok remote))
    ⊎ ((x : Failure) × (reconciled ≡ true)
        × (called ≡ err x)
        × IsUncertain x
        × (asked ≡ ok remote)
        × Fits remote)

-- A remote result has been written into a voucher: its state, its store, the time, and when the voucher
-- was consumed or revoked; what identifies the voucher is as it was.
pub record Written (r : VoucherResult) (now : ℕ) (v w : Voucher) : Type 0 where
  pub same_row :
      (w.id ≡ v.id)
      × (w.tenant_id ≡ v.tenant_id)
      × (w.connection_id ≡ v.connection_id)
      × (w.external_voucher_id ≡ v.external_voucher_id)
  pub state : w.state ≡ r.state
  pub store : w.consume_store_id ≡ r.consume_store_id
  pub synced : w.last_synced_at ≡ some now
  pub times :
      ((r.state ≡ "consumed") × (is_some w.consumed_at ≡ true) × (w.revoked_at ≡ none))
      ⊎ (((r.state ≡ "available") × (w.consumed_at ≡ none) × (w.revoked_at ≡ some now))
          ⊎ ((r.state == "consumed" ≡ false)
              × (r.state == "available" ≡ false)
              × (w.consumed_at ≡ v.consumed_at)
              × (w.revoked_at ≡ v.revoked_at)))

apply_remote-Written :
    (r : VoucherResult) (now : ℕ) (v : Voucher) (number : Option String)
    → Written r now v (record (apply_remote r now v) { last_consume_request_no = number })
unfolding apply_remote
apply_remote-Written r now v number = record {
  same_row = (refl, refl, refl, refl);
  state = refl;
  store = refl;
  synced = refl;
  times = elim (Bool-cases (r.state == "consumed")) [
    | inl used ↦ inl ((eq_iff r.state "consumed").0 used, ground arith, rw used refl)
    | inr unused ↦ elim (Bool-cases (r.state == "available")) [
      | inl free ↦ inr (
          inl ((eq_iff r.state "available").0 free, rw (unused, free) refl, rw (unused, free) refl))
      | inr neither ↦
          inr (inr (unused, neither, rw (unused, neither) refl, rw (unused, neither) refl))
    ]
  ];
}

module _ (connections : List Connection) (connect : String → Result Failure VoucherGateway)
    (opened : Option (String → Option Fields)) where
  -- The voucher is the operation's, the gateway its connection's, and one result of that gateway for its
  -- code and SKU has been written into it under the operation's request number.
  pub record Consumed (op : Operation) (now : ℕ) (db : VoucherDb) (f : Fields) (db' : VoucherDb)
      : Type 0 where
    pub entity : String
    pub voucher : Voucher
    pub sku : String
    pub gate : VoucherGateway
    pub code : String
    pub request : String
    pub store : String
    pub remote : VoucherResult
    pub reconciled : Bool
    pub named : entity_id op.payload ≡ some entity
    pub found : get_voucher op.tenant_id entity db ≡ some voucher
    pub stocked : truthy voucher.external_sku_id ≡ some sku
    pub reached : gateway_for connections connect opened op voucher ≡ ok gate
    pub read : operational_code opened voucher ≡ ok code
    pub numbered : get_str "consume_request_no" op.payload ≡ some request
    pub at : get_str "out_store_id" op.payload ≡ some store
    pub told :
        Told
          (gate.consume_voucher code sku request store
            (truthy (get_str "consume_store_name" op.payload))
            (truthy (get_str "reserve_no" op.payload)))
          (gate.get_voucher code sku)
          (IsConsumedAt store)
          remote
          reconciled
    pub written : Voucher
    pub writes : Written remote now voucher written
    pub keeps : written.last_consume_request_no ≡ some request
    pub answer : f ≡ voucher_reply written (field "reconciled" (bool reconciled) end)
    pub saved : db' ≡ save_voucher written db

  abbrev ConsumeSettled :
      VoucherGateway
      → Voucher
      → String
      → String
      → String
      → String
      → ℕ
      → VoucherDb
      → Result Failure VoucherResult
      → Fields
      → VoucherDb
      → Type 0
  ConsumeSettled g v code sku request store now db called f db' =
      (remote : VoucherResult) × (reconciled : Bool) × Told called (g.get_voucher code sku)
        (IsConsumedAt store) remote reconciled
      × (f
          ≡ voucher_reply (consumed remote request now v)
              (field "reconciled" (bool reconciled) end))
      × (db' ≡ save_voucher (consumed remote request now v) db)

  settle_consume-settled :
      (g : VoucherGateway) (v : Voucher) (code sku request store : String) (now : ℕ)
      (db : VoucherDb) (called : Result Failure VoucherResult) (f : Fields) (db' : VoucherDb)
      → settle_consume connections connect opened g v code sku request store now db called
        ≡ ok (f, db')
      → ConsumeSettled g v code sku request store now db called f db'
  unfolding settle_consume
  settle_consume-settled g v code sku request store now db (ok r) f db' e =
      (r, false, inl (refl, refl), ground arith, ground arith)
  settle_consume-settled g v code sku request store now db (err x) f db' e =
      elim (Bool-cases (is_uncertain x)) [
        | inr certain ↦ absurd (ground arith)
        | inl open_end ↦ asked (g.get_voucher code sku) refl open_end
      ]
    where
      asked :
          (y : Result Failure VoucherResult)
          → g.get_voucher code sku ≡ y
          → is_uncertain x ≡ true
          → ConsumeSettled g v code sku request store now db (err x) f db'
      asked (err z) told open_end = absurd (ground arith)
      asked (ok r) told open_end = elim (Bool-cases (consumed_at_store store r)) [
        | inr elsewhere ↦ absurd (ground arith)
        | inl there ↦
            let unsure = is_uncertain-IsUncertain x open_end in
            let fits = consumed_at_store-IsConsumedAt store r there in
            (r, true, inr (x, refl, refl, unsure, told, fits), ground arith, ground arith)
      ]

  -- A consumption that answers has found the voucher of its operation, and has written into it one
  -- result of the gateway of the voucher's connection, under the operation's request number: the answer to
  -- the consumption of the voucher's code and SKU under that number at the operation's store; or, where
  -- that call failed but may have happened, the answer to asking for that code and SKU, which tells that
  -- the voucher is consumed at the operation's store or at one that it does not tell. The answer says
  -- which.
  pub consume-Consumed :
      (op : Operation) (now : ℕ) (db : VoucherDb) (f : Fields) (db' : VoucherDb)
      → consume connections connect opened op now db ≡ ok (f, db')
      → Consumed op now db f db'
  unfolding consume
  consume-Consumed op now db f db' e =
      after_ok (require (entity_id op.payload) "核销操作参数无效" "invalid_operation_payload") _ _ _
        (λ i e0.
          after_ok
            (require (get_str "out_store_id" op.payload) "核销操作参数无效" "invalid_operation_payload") _ _
            _
            (λ store e1.
              after_ok
                (require (get_str "consume_request_no" op.payload) "核销操作参数无效"
                  "invalid_operation_payload")
                _ _ _
                (λ request e2.
                  after_ok (require (get_voucher op.tenant_id i db) "券码不存在" "voucher_not_found") _ _
                    _
                    (λ v e3.
                      after_ok
                        (require (truthy v.external_sku_id) "券码缺少微信 SKU 标识" "voucher_sku_missing") _
                        _ _
                        (λ sku e4.
                          after_ok (gateway_for connections connect opened op v) _ _ _ (λ g e5.
                            after_ok (operational_code opened v) _ _ _ (λ code e6 last.
                              let (remote, reconciled, told, answer, saved) =
                                settle_consume-settled g v code sku request store now db
                                  (g.consume_voucher code sku request store
                                    (truthy (get_str "consume_store_name" op.payload))
                                    (truthy (get_str "reserve_no" op.payload)))
                                  f db' last in
                              record {
                                entity = i;
                                voucher = v;
                                sku = sku;
                                gate = g;
                                code = code;
                                request = request;
                                store = store;
                                remote = remote;
                                reconciled = reconciled;
                                named = require-ok _ _ _ i e0;
                                found = require-ok _ _ _ v e3;
                                stocked = require-ok _ _ _ sku e4;
                                reached = e5;
                                read = e6;
                                numbered = require-ok _ _ _ request e2;
                                at = require-ok _ _ _ store e1;
                                told = told;
                                written = consumed remote request now v;
                                writes = apply_remote-Written remote now v (some request);
                                keeps = refl;
                                answer = answer;
                                saved = saved;
                              })))))))
        e

  -- the same of a revocation, and the request number that it leaves
  pub record Revoked (op : Operation) (now : ℕ) (db : VoucherDb) (f : Fields) (db' : VoucherDb)
      : Type 0 where
    pub entity : String
    pub voucher : Voucher
    pub sku : String
    pub gate : VoucherGateway
    pub code : String
    pub request : String
    pub remote : VoucherResult
    pub reconciled : Bool
    pub named : entity_id op.payload ≡ some entity
    pub found : get_voucher op.tenant_id entity db ≡ some voucher
    pub stocked : truthy voucher.external_sku_id ≡ some sku
    pub reached : gateway_for connections connect opened op voucher ≡ ok gate
    pub read : operational_code opened voucher ≡ ok code
    pub numbered : get_str "revoke_request_no" op.payload ≡ some request
    pub told :
        Told
          (gate.revoke_consumption code sku request (get_str "consume_request_no" op.payload))
          (gate.get_voucher code sku)
          IsAvailable
          remote
          reconciled
    pub written : Voucher
    pub writes : Written remote now voucher written
    pub keeps :
        written.last_consume_request_no
        ≡ (if reconciled then voucher.last_consume_request_no else none)
    pub answer : get "reconciled" f ≡ (if reconciled then some (bool true) else none)
    pub saved : db' ≡ save_voucher written db

  abbrev RevokeSettled :
      VoucherGateway
      → Voucher
      → String
      → String
      → ℕ
      → VoucherDb
      → Result Failure VoucherResult
      → Fields
      → VoucherDb
      → Type 0
  RevokeSettled g v code sku now db called f db' =
      (remote : VoucherResult) × (reconciled : Bool) × Told called (g.get_voucher code sku)
        IsAvailable remote reconciled
      × (get "reconciled" f ≡ (if reconciled then some (bool true) else none))
      × (db'
          ≡ save_voucher
              (record (apply_remote remote now v) {
                last_consume_request_no = if reconciled then v.last_consume_request_no else none;
              })
              db)

  settle_revoke-settled :
      (g : VoucherGateway) (v : Voucher) (code sku : String) (now : ℕ) (db : VoucherDb)
      (called : Result Failure VoucherResult) (f : Fields) (db' : VoucherDb)
      → settle_revoke connections connect opened g v code sku now db called ≡ ok (f, db')
      → RevokeSettled g v code sku now db called f db'
  unfolding settle_revoke
  settle_revoke-settled g v code sku now db (ok r) f db' e =
      (r, false, inl (refl, refl), ground arith, ground arith)
  settle_revoke-settled g v code sku now db (err x) f db' e = elim (Bool-cases (is_uncertain x)) [
    | inr certain ↦ absurd (ground arith)
    | inl open_end ↦ asked (g.get_voucher code sku) refl open_end
  ]
    where
      asked :
          (y : Result Failure VoucherResult)
          → g.get_voucher code sku ≡ y
          → is_uncertain x ≡ true
          → RevokeSettled g v code sku now db (err x) f db'
      asked (err z) told open_end = absurd (ground arith)
      asked (ok r) told open_end = elim (Bool-cases (r.state == "available")) [
        | inr not_yet ↦ absurd (ground arith)
        | inl free ↦
            let unsure = is_uncertain-IsUncertain x open_end in
            let fits = (eq_iff r.state "available").0 free in
            (r, true, inr (x, refl, refl, unsure, told, fits), ground arith, ground arith)
      ]

  -- A revocation that answers has found the voucher of its operation, and has written into it one result
  -- of the gateway of the voucher's connection: the answer to the revocation of the voucher's code and SKU
  -- under the operation's request number; or, where that call failed but may have happened, the answer to
  -- asking for that code and SKU, which tells that the voucher is available. It forgets the request number
  -- of the consumption in the first case, and keeps it in the second, which its answer tells.
  pub revoke-Revoked :
      (op : Operation) (now : ℕ) (db : VoucherDb) (f : Fields) (db' : VoucherDb)
      → revoke connections connect opened op now db ≡ ok (f, db')
      → Revoked op now db f db'
  unfolding revoke
  revoke-Revoked op now db f db' e =
      after_ok (require (entity_id op.payload) "撤销操作参数无效" "invalid_operation_payload") _ _ _
        (λ i e0.
          after_ok (require (get_voucher op.tenant_id i db) "券码不存在" "voucher_not_found") _ _ _
            (λ v e1.
              after_ok (require (truthy v.external_sku_id) "券码缺少微信 SKU 标识" "voucher_sku_missing") _
                _ _
                (λ sku e2. after_ok (gateway_for connections connect opened op v) _ _ _ (λ g e3.
                  after_ok (operational_code opened v) _ _ _ (λ code e4.
                    after_ok
                      (require (get_str "revoke_request_no" op.payload) "撤销操作参数无效"
                        "invalid_operation_payload")
                      _ _ _
                      (λ request e5 last.
                        let (remote, reconciled, told, answer, saved) =
                          settle_revoke-settled g v code sku now db
                            (g.revoke_consumption code sku request
                              (get_str "consume_request_no" op.payload))
                            f db' last in
                        record {
                          entity = i;
                          voucher = v;
                          sku = sku;
                          gate = g;
                          code = code;
                          request = request;
                          remote = remote;
                          reconciled = reconciled;
                          named = require-ok _ _ _ i e0;
                          found = require-ok _ _ _ v e1;
                          stocked = require-ok _ _ _ sku e2;
                          reached = e3;
                          read = e4;
                          numbered = require-ok _ _ _ request e5;
                          told = told;
                          written = record (apply_remote remote now v) {
                            last_consume_request_no =
                                if reconciled then v.last_consume_request_no else none;
                          };
                          writes = apply_remote-Written remote now v _;
                          keeps = refl;
                          answer = answer;
                          saved = saved;
                        }))))))
        e
