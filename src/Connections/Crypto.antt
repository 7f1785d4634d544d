-- ===== src/Connections/Crypto.antt =====
-- `redact_secrets` of backend/poi_admin/connections/crypto.py.
pub mod Redaction
use poi_hub.Base.{ℕ, String, Bool, true, false, List, [], ◌∷◌, ◌||◌, eqb, if◌then◌else◌}
use poi_hub.Base.Text.{codes, casefold, same_text, occurs_in}
use poi_hub.Base.Json.{Json, null, bool, int, str, arr, obj, Items, nil, cons, Fields, end, field}

-- `.replace("-", "_")`
dashes_to_underscores : List ℕ → List ℕ
dashes_to_underscores [] = []
dashes_to_underscores (c ∷ cs) = (if eqb c b'-' then b'_' else c) ∷ dashes_to_underscores cs

is_one_of : List ℕ → List String → Bool
unfolding same_text
is_one_of cs [] = false
is_one_of cs (s ∷ ss) = same_text cs (codes s) || is_one_of cs ss

contains_any : List ℕ → List String → Bool
unfolding occurs_in
contains_any cs [] = false
contains_any cs (s ∷ ss) = occurs_in (codes s) cs || contains_any cs ss

-- `_NON_SECRET_KEYS`
abbrev non_secret_keys : List String
non_secret_keys = "name" ∷ "display_name" ∷ "merchant_product_id" ∷ "status" ∷ []

abbrev secret_markers : List String
secret_markers =
    "secret" ∷ "token" ∷ "password" ∷ "authorization" ∷ "openid" ∷ "phone" ∷ "voucher" ∷ []

abbrev code_fields : List String
code_fields = "auth_code" ∷ "codes" ∷ "consume_code" ∷ "coupon_code" ∷ "voucher_code" ∷ []

unfoldable pub is_sensitive : String → Bool
unfolding dashes_to_underscores casefold is_one_of contains_any
is_sensitive key =
    let normalized = dashes_to_underscores (casefold (codes key)) in
    if is_one_of normalized non_secret_keys
    then false
    else is_one_of normalized code_fields || contains_any normalized secret_markers

abbrev pub marker : Json
marker = str "[REDACTED]"

unfoldable mutual
  pub redact_secrets : Json → Json
  redact_secrets (obj d) = obj (redact_fields d)
  redact_secrets (arr xs) = arr (redact_items xs)
  redact_secrets value = value

  pub redact_items : Items → Items
  redact_items nil = nil
  redact_items (cons x xs) = cons (redact_secrets x) (redact_items xs)

  pub redact_fields : Fields → Fields
  redact_fields end = end
  redact_fields (field k v r) =
      field k (if is_sensitive k then marker else redact_secrets v) (redact_fields r)
