-- ===== src/Connections/Tokens.antt =====
-- The access tokens of backend/poi_admin/connections/tokens.py. A time is a number of
-- microseconds. What the token service answers is a parameter, and so are `str` of a JSON value and
-- `float` of a text, in microseconds.
pub mod Lasting
use poi_hub.Base.{
  ℕ, ◌+◌, ◌*◌, String, Bool, true, false, not, Option, none, some, List, [], ◌∷◌, ◌&&◌, ◌||◌, ◌==◌,
  if◌then◌else◌, eqb, leb, ltb,
}
use poi_hub.Base.Rows.{any}
use poi_hub.Base.Text.{concat, rstrip_slash}
use poi_hub.Base.Parse.{to_int}
use poi_hub.Base.Int.{ℤ, pos, pos_part, eqb_ℤ}
use poi_hub.Base.Json.{
  Json, null, bool, int, str, arr, obj, Fields, field, end, get, get_str, is_truthy, or_value,
}
use poi_hub.Base.Result.{Result, ok, err, ◌>>=◌, ◌>>◌}
use poi_hub.Connections.Ports.{transient, terminal}
use poi_hub.Operations.Errors.{Failure, gateway, other}

abbrev pub second : ℕ
second = 1000000

-- what a provider holds: `_token` and `_expires_at`
pub record TokenState : Type 0 where
  pub token : Option String
  pub expires_at : ℕ

-- what comes back of a request: nothing, or a status with the JSON of the body, where none is a body
-- that is no JSON
pub data Reply : Type 0 where
  unreachable : Reply
  reply : ℕ → Option Json → Reply

abbrev pub raise_transient : {A : Type 0} → String → String → Result Failure A
raise_transient message code = err (gateway (transient message code))

abbrev raise_terminal : {A : Type 0} → String → String → Result Failure A
raise_terminal message code = err (gateway (terminal message code))

-- a text that is not empty
abbrev pub filled : Option Json → Option String
filled (some (str s)) = if s == "" then none else some s
filled _ = none

-- `isinstance(body, Mapping)`, after `response.json()`
unfoldable pub mapping_of : String → Option Json → Result Failure Fields
mapping_of message (some (obj d)) = ok d
mapping_of message _ = raise_transient message "invalid_upstream_response"

-- `int(body.get("errcode", 0) or 0)`
unfoldable pub error_code : Fields → Result Failure ℤ
unfolding to_int is_truthy
error_code d = elim (or_value (get "errcode" d) (some (int (pos 0)))) [
  | none ↦ err other
  | some v ↦ elim (to_int v) [ none ↦ err other | some n ↦ ok n ]
]

-- `status_code >= 500 or status_code == 429`
abbrev pub is_unavailable : ℕ → Bool
is_unavailable status = leb 500 status || eqb status 429

unfoldable pub unless : {E : Type 0} → Bool → Result E Unit → Result E Unit
unless true raised = raised
unless false raised = ok tt

module _ (show : Json → String) (float_text : String → Option ℤ) where
  -- `float(value)` in microseconds
  unfoldable to_float : Json → Option ℕ
  to_float (int n) = some (pos_part n * second)
  to_float (bool b) = some (if b then second else 0)
  to_float (str s) = elim (float_text s) [ none ↦ none | some n ↦ some (pos_part n) ]
  to_float _ = none

  -- `max(60.0, float(expires_in))`, or 7200 where that raises
  unfoldable pub ttl : Option Json → ℕ
  unfolding to_float
  ttl none = 7200 * second
  ttl (some v) = elim (to_float v) [
    | none ↦ 7200 * second
    | some n ↦ if ltb (60 * second) n then n else 60 * second
  ]

  message : String → Fields → String
  message default d = elim (get "errmsg" d) [ none ↦ default | some v ↦ show v ]

  unfoldable numbered : ℤ → String
  numbered n = concat "wechat_" (show (int n))

  -- `WeChatAccessTokenProvider._refresh`: the token and the time that it lives
  unfoldable pub app_token : Reply → Result Failure (String × ℕ)
  unfolding mapping_of error_code unless ttl message numbered concat
  app_token unreachable = raise_transient "WeChat token service unavailable" "token_unavailable"
  app_token (reply status body) = do
    unless (is_unavailable status)
        (raise_transient "WeChat token service unavailable" "token_unavailable")
    d ← mapping_of "WeChat token service returned invalid JSON" body
    n ← error_code d
    unless (not (eqb_ℤ n (pos 0))) (
        raise_terminal (message "WeChat token request failed" d) (
          if any (λ k. eqb_ℤ n (pos k)) (40001 ∷ 40125 ∷ 40164 ∷ [])
          then "token_invalid"
          else numbered n))
    elim (filled (get "access_token" d)) [
      | none ↦
          raise_transient "WeChat token response omitted access_token" "invalid_upstream_response"
      | some t ↦ ok (t, ttl (get "expires_in" d))
    ]

  -- `WeChatAuthorizerTokenProvider._refresh`, with the refresh token that comes along, if one does
  unfoldable pub authorizer_token : Reply → Result Failure ((String × ℕ) × Option String)
  unfolding mapping_of error_code unless ttl message numbered concat
  authorizer_token unreachable =
      raise_transient "WeChat authorizer token service unavailable" "token_unavailable"
  authorizer_token (reply status body) = do
    d ← mapping_of "WeChat authorizer token response is invalid" body
    n ← error_code d
    unless (is_unavailable status)
        (raise_transient "WeChat authorizer token service unavailable" "token_unavailable")
    unless (leb 400 status || not (eqb_ℤ n (pos 0))) (
        raise_terminal (message "authorizer token refresh failed" d)
          (numbered (if eqb_ℤ n (pos 0) then pos status else n)))
    elim (filled (get "authorizer_access_token" d)) [
      | none ↦
          raise_transient "WeChat authorizer token response omitted token"
            "invalid_upstream_response"
      | some t ↦ ok ((t, ttl (get "expires_in" d)), filled (get "authorizer_refresh_token" d))
    ]

-- what the authorizer's refresh means for the token
unfoldable pub token_of :
    Result Failure ((String × ℕ) × Option String) → Result Failure (String × ℕ)
token_of (ok (t, r)) = ok t
token_of (err e) = err e

-- `not force_refresh and self._token and self._expires_at - now > 60`: the token
unfoldable pub fresh_token : Bool → ℕ → TokenState → Option String
fresh_token force now s = elim s.token [
  | none ↦ none
  | some t ↦
      if not force && not (t == "") && ltb (now + 60 * second) s.expires_at then some t else none
]

-- What is stored of a refresh that ends at `done`.
unfoldable pub stored :
    ℕ → Result Failure (String × ℕ) → TokenState → Result Failure String × TokenState
stored done (ok (t, life)) s = (ok t, record { token = some t; expires_at = done + life })
stored done (err e) s = (err e, s)

-- `get_token`, which both providers share. `before` is what the caller finds at `now`, `waited` what
-- it finds at `now'`, when it has got the lock, and `answer` what a refresh would bring at `done`.
unfoldable pub get_token :
    Bool
    → ℕ
    → TokenState
    → ℕ
    → TokenState
    → ℕ
    → Result Failure (String × ℕ)
    → Result Failure String × TokenState
unfolding fresh_token stored
get_token force now before now' waited done answer = elim (fresh_token force now before) [
  | some t ↦ (ok t, before)
  | none ↦ elim (fresh_token force now' waited) [
    | some t ↦ (ok t, waited)
    | none ↦ stored done answer waited
  ]
]

-- `StaticTokenProvider.get_token`
unfoldable static_token : String → Result Failure String
static_token t =
    if t == "" then raise_terminal "access token is not configured" "token_missing" else ok t

-- the providers, with what they are made of; `base_url` is where they ask
pub data Provider : Type 0 where
  static : String → Provider
  app : (app_id app_secret base_url : String) → TokenState → Provider
  authorizer :
      (app_id refresh_token component_app_id component_access_token base_url : String)
      → TokenState
      → Provider

abbrev or_zero : Option ℕ → ℕ
or_zero none = 0
or_zero (some n) = n

-- the four texts of an authorizer, if none of them is missing or empty
abbrev pub authorizer_parts :
    Option String → Fields → Option (String × (String × (String × String)))
authorizer_parts app_id secrets = elim app_id [
  | none ↦ none
  | some a ↦ if a == "" then none else elim (filled (get "authorizer_refresh_token" secrets)) [
    | none ↦ none
    | some r ↦ elim (filled (get "component_app_id" secrets)) [
      | none ↦ none
      | some c ↦ elim (filled (get "component_access_token" secrets)) [
        | none ↦ none
        | some t ↦ some (a, (r, (c, t)))
      ]
    ]
  ]
]

-- the time that the secrets name; `read_time` is `float` of it, in microseconds
unfoldable pub named_expiry : (Json → Option ℕ) → Fields → ℕ
named_expiry read_time secrets = elim (get "authorizer_token_expires_at" secrets) [
  | none ↦ 0
  | some v ↦ or_zero (read_time v)
]

-- the provider of an app, by its secret
unfoldable pub app_provider : Option String → Fields → String → Result Failure Provider
unfolding is_truthy rstrip_slash
app_provider app_id secrets base_url = elim app_id [
  | none ↦ raise_terminal "live connection credentials are incomplete" "credentials_missing"
  | some a ↦ elim (filled (or_value (get "app_secret" secrets) (get "secret" secrets))) [
    | none ↦ raise_terminal "live connection credentials are incomplete" "credentials_missing"
    | some s ↦
        if a == ""
        then raise_terminal "live connection credentials are incomplete" "credentials_missing"
        else ok (app a s (rstrip_slash base_url) (record { token = none; expires_at = 0 }))
  ]
]

-- `token_provider_from_secrets`
unfoldable pub token_provider_from_secrets :
    (Json → Option ℕ) → Option String → Fields → String → Result Failure Provider
unfolding is_truthy rstrip_slash named_expiry app_provider
token_provider_from_secrets read_time app_id secrets base_url =
    elim (authorizer_parts app_id secrets) [
      | some (a, (r, (c, t))) ↦ ok (
          authorizer a r c t (rstrip_slash base_url) (record {
            token = get_str "authorizer_access_token" secrets;
            expires_at = named_expiry read_time secrets;
          }))
      | none ↦
          elim (filled
            (or_value (get "access_token" secrets) (get "authorizer_access_token" secrets))) [
              | some t ↦ ok (static t)
              | none ↦ app_provider app_id secrets base_url
            ]
    ]
