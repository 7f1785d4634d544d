-- ===== src/Core/Tests.antt =====
-- Runs of the permissions and the license of backend/poi_admin/core on concrete rows.
mod Requests
use poi_hub.Base.{
  ℕ, String, ◌≡◌, refl, true, not, Option, none, some, [], ◌==◌, ◌&&◌, ◌||◌, if◌then◌else◌, ◌↔◌,
  eq_iff,
}
use mathlib.Core.Option.{some-injective}
use poi_hub.Base.Result.{ok}
use poi_hub.Core.Permissions.{has_permission, tenant_admin_covers, manage_tenants_role}
use poi_hub.Core.Licensing.{
  LicenseClaims, LicenseState, Request, Response, valid, current_status, allows_writes,
  load_license, warned, rejected, is_mutation, is_exempt, license_enforcement_middleware, genuine,
  expires_after, load_license-allows_writes,
}

abbrev claims : LicenseClaims
claims = record {
  license_id = "l";
  customer_id = "c";
  customer_name = "n";
  installation_id = "i";
  issued_at = 0;
  expires_at = 100;
  max_stores = 3;
  features = [];
}

abbrev ended : LicenseState
ended = record { mode = "enforce"; status = valid; claims = some claims; error = none }

abbrev change : Request
change = record { method = "POST"; path = "/api/v1/stores" }

abbrev count : ℕ → Response × ℕ
count n = (record { status_code = 200; warning = none }, 5)
