-- ===== src/Connections/Tests.antt =====
-- Runs of the redaction of backend/poi_admin/connections/crypto.py on a concrete payload.
mod Secrets
use poi_hub.Base.{◌≡◌, true}
use poi_hub.Base.Json.{str, obj, Fields, end, field, get}
use poi_hub.Connections.Crypto.{redact_secrets, redact_fields}
use poi_hub.Connections.Crypto.Redaction.{
  is_clean, redact_secrets-clean, redacted, get-redact_fields,
}

abbrev payload : Fields
payload = field "order_id" (str "o-1") (
    field "customer" (obj (field "Phone-Number" (str "123") end))
      (field "access_token" (str "t") end))

redact_secrets-clean_example :
    (is_clean (redact_secrets (obj payload)) ≡ true)
    × (redact_secrets (redact_secrets (obj payload)) ≡ redact_secrets (obj payload))
redact_secrets-clean_example = redact_secrets-clean (obj payload)
