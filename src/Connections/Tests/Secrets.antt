-- ===== src/Connections/Tests/Secrets.antt =====
-- Runs of the tokens and of the connections of backend/poi_admin/connections on concrete rows.
use poi_hub.Base.{ℕ, ◌+◌, ◌*◌, String, ◌≡◌, refl, false, Option, none, some, [], ◌∷◌, arith, inl}
use poi_hub.Base.Int.{ℤ, pos}
use poi_hub.Base.Json.{Json, int, str, obj, Fields, end, field}
use poi_hub.Base.Result.{ok, ok_or}
use poi_hub.Connections.Model.{WeChatConnection}
use poi_hub.Connections.Tokens.{second, TokenState, Reply, reply, app_token, get_token}
use poi_hub.Connections.Tokens.Lasting.{Lasts, get_token-Lasts}
use poi_hub.Connections.Service.{GatewayChoice, mock_local_life, gateway_choice}
use poi_hub.Connections.Service.Outbound.{TalksTo, gateway_choice-TalksTo}

abbrev show : Json → String
show v = "text"

abbrev float_text : String → Option ℤ
float_text s = none

abbrev token_reply : Reply
token_reply =
    reply 200
      (some (obj (field "access_token" (str "t") (field "expires_in" (int (pos 7200)) end))))

abbrev nothing : TokenState
nothing = record { token = none; expires_at = 0 }

abbrev kept : TokenState
kept = record { token = some "t"; expires_at = 5 + 7200 * second }

refreshed :
    get_token false 0 nothing 1 nothing 5 (app_token show float_text token_reply) ≡ (ok "t", kept)
unfolding get_token app_token
refreshed = refl

get_token-Lasts_example : Lasts "t" 0 kept
get_token-Lasts_example =
    get_token-Lasts show float_text false 0 nothing 1 nothing 5
      (app_token show float_text token_reply) "t" kept (inl (token_reply, refl)) (ground arith)
      (ground arith) refreshed

abbrev connection : WeChatConnection
connection = record {
  id = "c";
  tenant_id = "t";
  capability = "local_life";
  mode = "live";
  mock_scenario = "success";
  status = "authorized";
  app_id = some "wx";
  merchant_id = none;
  encrypted_secrets = some "sealed";
  token_expires_at = none;
  permission_snapshot = none;
  last_health_check_at = none;
  last_error = none;
  created_at = 0;
}

abbrev secrets : Fields
secrets = field "app_secret" (str "x") (field "base_url" (str "http://elsewhere") end)

abbrev sealed : Fields → String
sealed d = "sealed"

abbrev unsealed : String → Option Fields
unsealed s = some secrets

abbrev no_time : Json → Option ℕ
no_time v = none

abbrev chosen : GatewayChoice
unfolding gateway_choice
chosen =
    ok_or (gateway_choice sealed unsealed no_time "https://api" "t" "c" (connection ∷ []))
      (mock_local_life "" "")

choose : gateway_choice sealed unsealed no_time "https://api" "t" "c" (connection ∷ []) ≡ ok chosen
unfolding gateway_choice
choose = refl

gateway_choice-TalksTo_example : TalksTo "https://api" chosen
unfolding gateway_choice
gateway_choice-TalksTo_example =
    gateway_choice-TalksTo sealed unsealed no_time "https://api" "t" "c" (connection ∷ []) chosen
      choose
