-- ===== src/Connections/Service.antt =====
-- `ConnectionService` of backend/poi_admin/connections/service.py. `seal` and `unseal` are
-- `encrypt_secret_bundle` and `decrypt_secret_bundle` under the key of the settings, whose cipher is
-- a library's; a bundle that cannot be opened raises a `ValueError`.
pub mod Outbound
use poi_hub.Base.{
  ℕ, String, Bool, true, false, not, Option, none, some, List, [], ◌∷◌, ◌++◌, ◌&&◌, ◌==◌,
  if◌then◌else◌, is_some,
}
use poi_hub.Base.Rows.{find, any, write, select}
use poi_hub.Base.Int.{ℤ, pos}
use poi_hub.Base.Parse.{to_int}
use poi_hub.Base.Json.{Json, Fields, end, field, get}
use poi_hub.Base.Result.{Result, ok, err, ◌>>=◌, ◌>>◌}
use poi_hub.Connections.Model.{WeChatConnection}
use poi_hub.Connections.Ports.{Capability, local_life, service_poi, terminal}
use poi_hub.Connections.Tokens.{Provider, token_provider_from_secrets}
use poi_hub.Operations.Errors.{Failure, gateway}

-- `ConnectionMode`
pub data ConnectionMode : Type 0 where
  mock live : ConnectionMode

unfoldable capability_value : Capability → String
capability_value local_life = "local_life"
capability_value service_poi = "service_poi"

unfoldable mode_value : ConnectionMode → String
mode_value mock = "mock"
mode_value live = "live"

-- `ConnectionServiceError` by its code and status, what a gateway raises, and a `ValueError`
pub data ConnectionError : Type 0 where
  service : String → ℕ → ConnectionError
  raised : Failure → ConnectionError
  value_error : ConnectionError

unfoldable pub require : {A : Type 0} → Option A → ConnectionError → Result ConnectionError A
require none e = err e
require (some a) e = ok a

unfoldable pub check : Bool → ConnectionError → Result ConnectionError Unit
check true e = ok tt
check false e = err e

abbrev pub is_connection : String → String → WeChatConnection → Bool
is_connection tenant i c = c.tenant_id == tenant && c.id == i

unfoldable pub get_connection : String → String → List WeChatConnection → Option WeChatConnection
get_connection tenant i table = find (is_connection tenant i) table

-- the key of `uq_connection_tenant_capability`
unfoldable has_capability : String → String → WeChatConnection → Bool
has_capability tenant capability c = c.tenant_id == tenant && c.capability == capability

-- what a caller of `create` gives
pub record NewConnection : Type 0 where
  pub capability : Capability
  pub mode : ConnectionMode
  pub app_id : Option String
  pub merchant_id : Option String
  pub secrets : Option Fields
  pub mock_scenario : String

is_empty : Option String → Bool
is_empty none = true
is_empty (some s) = s == ""

is_live : ConnectionMode → Bool
is_live live = true
is_live mock = false

abbrev pub not_found : ConnectionError
not_found = service "connection_not_found" 404

-- the gateways that a connection may stand for, with what they are made of
pub data GatewayChoice : Type 0 where
  mock_local_life : (tenant scenario : String) → GatewayChoice
  mock_service_poi : (tenant scenario : String) → GatewayChoice
  live_local_life : Provider → (base_url : String) → GatewayChoice
  live_service_poi : Provider → (base_url : String) → (district_id : ℤ) → GatewayChoice

module _ (seal : Fields → String) (unseal : String → Option Fields) where
  -- `if secrets:`
  unfoldable sealed : Option Fields → Option String
  sealed none = none
  sealed (some end) = none
  sealed (some (field k v d)) = some (seal (field k v d))

  -- `i` and `now` are the id and the time of the new row.
  unfoldable new_connection : String → ℕ → String → NewConnection → WeChatConnection
  unfolding capability_value mode_value sealed is_live
  new_connection i now tenant r = record {
    id = i;
    tenant_id = tenant;
    capability = capability_value r.capability;
    mode = mode_value r.mode;
    mock_scenario = r.mock_scenario;
    status = if is_live r.mode then "disconnected" else "authorized";
    app_id = r.app_id;
    merchant_id = r.merchant_id;
    encrypted_secrets = sealed r.secrets;
    token_expires_at = none;
    permission_snapshot = none;
    last_health_check_at = none;
    last_error = none;
    created_at = now;
  }

  -- `seen` is the table that the query reads, and `table` the one at the commit.
  unfoldable pub create :
      String
      → ℕ
      → String
      → NewConnection
      → List WeChatConnection
      → List WeChatConnection
      → Result ConnectionError (WeChatConnection × List WeChatConnection)
  unfolding new_connection has_capability check is_live is_empty capability_value
  create i now tenant r seen table = do
    check (not (any (has_capability tenant (capability_value r.capability)) seen))
        (service "connection_exists" 409)
    check (not (is_live r.mode && is_empty r.app_id)) (service "app_id_required" 422)
    check (not (any (has_capability tenant (capability_value r.capability)) table))
        (service "connection_exists" 409)
    ok (new_connection i now tenant r, table ++ new_connection i now tenant r ∷ [])

  unfoldable pub with_secrets : Fields → WeChatConnection → WeChatConnection
  with_secrets secrets c = record c { encrypted_secrets = some (seal secrets) }

  unfoldable pub update_secrets :
      String
      → String
      → Fields
      → List WeChatConnection
      → Result ConnectionError (WeChatConnection × List WeChatConnection)
  unfolding get_connection require with_secrets
  update_secrets tenant i secrets table = do
    c ← require (get_connection tenant i table) not_found
    ok (with_secrets secrets c, write (is_connection tenant i) (with_secrets secrets) table)

  -- the bundle of a connection, or none where it has none
  unfoldable pub open_secrets : Option String → Result ConnectionError (Option Fields)
  unfolding require
  open_secrets none = ok none
  open_secrets (some s) =
      if s == "" then ok none else (do d ← require (unseal s) value_error; ok (some d))

  unfoldable pub read_secrets :
      String → String → List WeChatConnection → Result ConnectionError Fields
  unfolding get_connection require open_secrets
  read_secrets tenant i table = do
    c ← require (get_connection tenant i table) not_found
    bundle ← open_secrets c.encrypted_secrets
    ok (elim bundle [ none ↦ end | some d ↦ d ])

  -- `int(secrets.get("district_id", 0))`, or 0 where that raises
  unfoldable pub district : Fields → ℤ
  unfolding to_int
  district secrets = elim (get "district_id" secrets) [
    | none ↦ pos 0
    | some v ↦ elim (to_int v) [ none ↦ pos 0 | some n ↦ n ]
  ]

  unfoldable pub lift : {A : Type 0} → Result Failure A → Result ConnectionError A
  lift (ok a) = ok a
  lift (err e) = err (raised e)

  -- `base_url` is that of the settings.
  unfoldable pub live_gateway :
      (Json → Option ℕ) → String → WeChatConnection → Fields → Result ConnectionError GatewayChoice
  unfolding token_provider_from_secrets lift district
  live_gateway read_time base_url c secrets = do
    provider ← lift (token_provider_from_secrets read_time c.app_id secrets base_url)
    if c.capability == "local_life"
        then ok (live_local_life provider base_url)
        else if c.capability == "service_poi"
        then ok (live_service_poi provider base_url (district secrets))
        else err (raised (gateway (terminal "连接能力无效" "invalid_connection")))

  -- the gateway of a live connection
  unfoldable pub live_choice :
      (Json → Option ℕ) → String → WeChatConnection → Result ConnectionError GatewayChoice
  unfolding require open_secrets live_gateway
  live_choice read_time base_url c = do
    bundle ← open_secrets c.encrypted_secrets
    secrets ← require bundle (raised (gateway (terminal "真实微信连接凭据尚未配置" "credentials_missing")))
    live_gateway read_time base_url c secrets

  -- `gateway`
  unfoldable pub gateway_choice :
      (Json → Option ℕ)
      → String
      → String
      → String
      → List WeChatConnection
      → Result ConnectionError GatewayChoice
  unfolding get_connection require live_choice
  gateway_choice read_time base_url tenant i table = do
    c ← require (get_connection tenant i table) not_found
    if c.mode == "mock"
        then if c.capability == "local_life"
          then ok (mock_local_life tenant c.mock_scenario)
          else ok (mock_service_poi tenant c.mock_scenario)
        else live_choice read_time base_url c
