-- ===== src/Connections/Service/Outbound.antt =====
-- The secrets of a connection and the addresses that its gateway talks to, of
-- backend/poi_admin/connections/service.py.
use poi_hub.Base.{
  ℕ, String, ◌≡◌, refl, false, Option, none, some, List, ◌==◌, arith, Bool-cases, Option-cases, inl,
  inr,
}
use poi_hub.Base.Text.{rstrip_slash}
use poi_hub.Base.Rows.{find, write}
use poi_hub.Base.Rows.Laws.{find-write, find-test}
use poi_hub.Base.Json.{Json, Fields, get, get_str, or_value}
use poi_hub.Base.Result.{ok, after_ok, result-cases}
use poi_hub.Connections.Model.{WeChatConnection}
use poi_hub.Connections.Tokens.{
  authorizer_parts, filled, app_provider, named_expiry, Provider, static, app, authorizer,
  token_provider_from_secrets,
}
use poi_hub.Connections.Service.{
  GatewayChoice, mock_local_life, mock_service_poi, live_local_life, live_service_poi, require,
  not_found, get_connection, open_secrets, live_gateway, live_choice, gateway_choice,
  update_secrets, read_secrets, with_secrets, is_connection, lift, district,
}

-- A provider asks for its tokens at this address, if it asks at all.
abbrev AsksAt : String → Provider → Type 0
AsksAt base_url (static t) = Unit
AsksAt base_url (app a s b state) = b ≡ rstrip_slash base_url
AsksAt base_url (authorizer a r c t b state) = b ≡ rstrip_slash base_url

-- A gateway talks to this address only, if it talks at all.
abbrev pub TalksTo : String → GatewayChoice → Type 0
TalksTo base_url (mock_local_life t s) = Unit
TalksTo base_url (mock_service_poi t s) = Unit
TalksTo base_url (live_local_life p b) = AsksAt base_url p × (b ≡ base_url)
TalksTo base_url (live_service_poi p b d) = AsksAt base_url p × (b ≡ base_url)

app-AsksAt :
    (app_id : Option String) (secrets : Fields) (base_url : String) (p : Provider)
    → app_provider app_id secrets base_url ≡ ok p
    → AsksAt base_url p
unfolding app_provider
app-AsksAt none secrets base_url p e = absurd (ground arith)
app-AsksAt (some a) secrets base_url p e =
    elim (Option-cases (filled (or_value (get "app_secret" secrets) (get "secret" secrets)))) [
      | inl none' ↦ absurd (ground arith)
      | inr (s, held) ↦ elim (Bool-cases (a == "")) [
        | inl empty ↦ absurd (ground arith)
        | inr full ↦
            let same : p
                ≡ app a s (rstrip_slash base_url) (record { token = none; expires_at = 0 }) =
              ground arith in
            rw same refl
      ]
    ]

provider-AsksAt :
    (read_time : Json → Option ℕ) (app_id : Option String) (secrets : Fields) (base_url : String)
    (p : Provider)
    → token_provider_from_secrets read_time app_id secrets base_url ≡ ok p
    → AsksAt base_url p
unfolding token_provider_from_secrets
provider-AsksAt read_time app_id secrets base_url p e =
    elim (Option-cases (authorizer_parts app_id secrets)) [
      | inr ((a, (r, (c, t))), parts) ↦
          let same : p
              ≡ authorizer a r c t (rstrip_slash base_url) (record {
                token = get_str "authorizer_access_token" secrets;
                expires_at = named_expiry read_time secrets;
              }) =
            ground arith in
          rw same refl
      | inl none' ↦
          elim (Option-cases (
            filled
              (or_value (get "access_token" secrets) (get "authorizer_access_token" secrets)))) [
                | inr (t, held) ↦ let same : p ≡ static t = ground arith in rw same tt
                | inl none'' ↦ app-AsksAt app_id secrets base_url p (ground arith)
              ]
    ]

module _ (seal : Fields → String) (unseal : String → Option Fields) where
  live-TalksTo :
      (read_time : Json → Option ℕ) (base_url : String) (c : WeChatConnection) (secrets : Fields)
      (g : GatewayChoice)
      → live_gateway seal unseal read_time base_url c secrets ≡ ok g
      → TalksTo base_url g
  unfolding live_gateway lift
  live-TalksTo read_time base_url c secrets g e =
      elim (result-cases (token_provider_from_secrets read_time c.app_id secrets base_url)) [
        | inr (f, failed) ↦ absurd (ground arith)
        | inl (p, made) ↦
            let asks = provider-AsksAt read_time c.app_id secrets base_url p made in
            elim (Bool-cases (c.capability == "local_life")) [
              | inl yes_life ↦
                  let same : g ≡ live_local_life p base_url = ground arith in rw same (asks, refl)
              | inr no_life ↦ elim (Bool-cases (c.capability == "service_poi")) [
                | inl yes_poi ↦
                    let same : g ≡ live_service_poi p base_url (district seal unseal secrets) =
                      ground arith in
                    rw same (asks, refl)
                | inr no_poi ↦ absurd (ground arith)
              ]
            ]
      ]

  chosen-TalksTo :
      (read_time : Json → Option ℕ) (base_url : String) (c : WeChatConnection) (g : GatewayChoice)
      → live_choice seal unseal read_time base_url c ≡ ok g
      → TalksTo base_url g
  unfolding live_choice
  chosen-TalksTo read_time base_url c g e =
      after_ok (open_secrets seal unseal c.encrypted_secrets) _ g _
        (λ bundle _ rest.
          after_ok (require bundle _) _ g _
            (λ secrets _ last. live-TalksTo read_time base_url c secrets g last) rest)
        e

  -- Whatever a tenant has stored as the secrets of its connection, the gateway of the connection and
  -- the token provider of the gateway send their requests to the address of the settings, or send
  -- none.
  pub gateway_choice-TalksTo :
      (read_time : Json → Option ℕ) (base_url tenant i : String) (table : List WeChatConnection)
      (g : GatewayChoice)
      → gateway_choice seal unseal read_time base_url tenant i table ≡ ok g
      → TalksTo base_url g
  unfolding gateway_choice
  gateway_choice-TalksTo read_time base_url tenant i table g e =
      after_ok (require (get_connection tenant i table) not_found) _ g _
        (λ c _ rest. elim (Bool-cases (c.mode == "mock")) [
          | inl mock' ↦ elim (Bool-cases (c.capability == "local_life")) [
            | inl l ↦
                let same : g ≡ mock_local_life tenant c.mock_scenario = ground arith in rw same tt
            | inr l ↦
                let same : g ≡ mock_service_poi tenant c.mock_scenario = ground arith in rw same tt
          ]
          | inr live' ↦ chosen-TalksTo read_time base_url c g (ground arith)
        ])
        e

  with_secrets_kept :
      (tenant i : String) (secrets : Fields) (c : WeChatConnection)
      → is_connection tenant i (with_secrets seal unseal secrets c) ≡ is_connection tenant i c
  unfolding with_secrets
  with_secrets_kept tenant i secrets c = refl

  opened :
      (secrets : Fields) (x : WeChatConnection)
      → unseal (seal secrets) ≡ some secrets
      → (seal secrets == "") ≡ false
      → open_secrets seal unseal (with_secrets seal unseal secrets x).encrypted_secrets
        ≡ ok (some secrets)
  unfolding open_secrets with_secrets require
  opened secrets x opens full = rw (full, opens) refl

  -- The secrets that a connection has been given are read back as they were, if the cipher opens what
  -- it has sealed of them, which is not the empty text.
  pub read_secrets-update_secrets :
      (tenant i : String) (secrets : Fields) (table : List WeChatConnection) (c : WeChatConnection)
      (table' : List WeChatConnection)
      → unseal (seal secrets) ≡ some secrets
      → (seal secrets == "") ≡ false
      → update_secrets seal unseal tenant i secrets table ≡ ok (c, table')
      → read_secrets seal unseal tenant i table' ≡ ok secrets
  unfolding update_secrets read_secrets require get_connection open_secrets
  read_secrets-update_secrets tenant i secrets table c table' opens full e =
      elim (Option-cases (find (is_connection tenant i) table)) [
        | inl none' ↦ absurd (ground arith)
        | inr (x, found) ↦
            let same : table'
                ≡ write (is_connection tenant i) (with_secrets seal unseal secrets) table =
              ground arith in
            let there : find (is_connection tenant i) table'
                ≡ some (with_secrets seal unseal secrets x) =
              rw
                (
                  same,
                  find-write (is_connection tenant i) (is_connection tenant i)
                      (with_secrets seal unseal secrets) (with_secrets_kept tenant i secrets)
                      (λ y h. h) table,
                  found,
                  find-test (is_connection tenant i) table x found,
                )
                refl in
            rw (there, opened secrets x opens full) refl
      ]
