-- ===== src/Core/Dependencies.antt =====
-- The session, the tenant and the permission of a request, of
-- backend/poi_admin/core/dependencies.py. `hash` is `hash_token`; the clock is read once.
pub mod Sessions
pub mod Placement
pub mod Access
pub mod Login
use poi_hub.Base.{
  ℕ, ◌+◌, ◌*◌, String, Bool, true, false, not, Option, none, some, List, [], ◌∷◌, ◌&&◌, ◌||◌, ◌==◌,
  if◌then◌else◌, is_some, leb,
}
use poi_hub.Base.Rows.{find, select, write}
use poi_hub.Base.Result.{Result, ok, err, ◌>>=◌, ◌>>◌}
use poi_hub.Core.Permissions.{
  Role, platform_admin, Permission, role_value, permission_value, coerce_role, has_permission,
}
use poi_hub.Operations.Errors.{second}
use poi_hub.Identity.Model.{User, Tenant, Membership, UserSession, IdentityDb}
use poi_hub.Identity.Service.{is_member}

-- what the dependencies read of a request: the cookies and the headers
pub record Request : Type 0 where
  pub session_cookie : Option String
  pub tenant_header : Option String
  pub tenant_cookie : Option String
  pub csrf_header : Option String

-- `AuthContext`
pub record AuthContext : Type 0 where
  pub user : User
  pub session : UserSession
  pub tenant : Option Tenant
  pub membership : Option Membership
  pub role : Option Role

-- `auth_error` by its code and status
pub record AuthError : Type 0 where
  pub code : String
  pub status_code : ℕ

abbrev pub refuse : {A : Type 0} → String → ℕ → Result AuthError A
refuse code status = err (record { code = code; status_code = status })

unfoldable pub require : {A : Type 0} → Option A → String → ℕ → Result AuthError A
require none code status = refuse code status
require (some a) code status = ok a

unfoldable pub check : Bool → String → ℕ → Result AuthError Unit
check true code status = ok tt
check false code status = refuse code status

-- a text that is there and not empty
unfoldable pub given : Option String → Option String
given none = none
given (some s) = if s == "" then none else some s

-- `a or b`
unfoldable pub either_given : Option String → Option String → Option String
unfolding given
either_given a b = elim (given a) [ some s ↦ some s | none ↦ given b ]

-- `SESSION_TOUCH_INTERVAL`, five minutes
abbrev touch_interval : ℕ
touch_interval = 300 * second

abbrev pub has_token : String → UserSession → Bool
has_token hash s = s.token_hash == hash

unfoldable pub is_active_user : Option User → Bool
is_active_user none = false
is_active_user (some u) = u.status == "active"

abbrev pub user_of : UserSession → IdentityDb → Option User
user_of s db = find (λ (u : User). u.id == s.user_id) db.users

abbrev pub tenant_of : String → IdentityDb → Option Tenant
tenant_of i db = find (λ (t : Tenant). t.id == i) db.tenants

unfoldable pub is_active_member : String → String → Membership → Bool
unfolding is_member
is_active_member tenant user m = is_member tenant user m && m.status == "active"

unfoldable pub belongs : String → Membership → Bool
belongs user m = m.user_id == user && m.status == "active"

-- the checks on the session of a token, and its user
unfoldable pub open_session :
    (String → String) → ℕ → Option String → IdentityDb → Result AuthError (UserSession × User)
unfolding require check given is_active_user
open_session hash now cookie db = do
  token ← require (given cookie) "authentication_required" 401
  s ← require (find (has_token (hash token)) db.sessions) "authentication_required" 401
  check (not (is_some s.revoked_at)) "authentication_required" 401
  check (not (leb s.expires_at now)) "session_expired" 401
  check (is_active_user (user_of s db)) "authentication_required" 401
  u ← require (user_of s db) "authentication_required" 401
  ok (s, u)

-- the tenant, the membership and the role of a context
pub record Chosen : Type 0 where
  pub tenant : Option Tenant
  pub membership : Option Membership
  pub role : Option Role

abbrev base_role : User → Option Role
base_role u = if u.is_platform_admin then some platform_admin else none

unfoldable pub role_of : Option Membership → Option Role
unfolding coerce_role
role_of none = none
role_of (some m) = coerce_role m.role

-- a tenant that the request names
unfoldable pub named_tenant : User → String → IdentityDb → Result AuthError Chosen
unfolding require check is_active_member coerce_role role_of
named_tenant u i db = do
  t ← require (tenant_of i db) "tenant_not_found" 404
  check (t.status == "active") "tenant_not_found" 404
  let m = find (is_active_member i u.id) db.memberships
  check (is_some m || u.is_platform_admin) "tenant_access_denied" 403
  ok (record {
    tenant = some t;
    membership = m;
    role = if u.is_platform_admin then some platform_admin else role_of m;
  })

-- nothing is chosen
abbrev unplaced : Option Role → Chosen
unplaced r = record { tenant = none; membership = none; role = r }

-- `memberships[0] if len(memberships) == 1 else None`, and what follows from it
unfoldable pub sole : List Membership → IdentityDb → Chosen
unfolding coerce_role
sole [] db = unplaced none
sole (m ∷ []) db = record {
  tenant = tenant_of m.tenant_id db;
  membership = some m;
  role = coerce_role m.role;
}
sole (m ∷ n ∷ ms) db = unplaced none

-- the tenant of a user's only membership, where the request names none
unfoldable pub only_tenant : User → IdentityDb → Chosen
unfolding belongs sole
only_tenant u db =
    if u.is_platform_admin
    then unplaced (some platform_admin)
    else sole (select (belongs u.id) db.memberships) db

unfoldable pub choose : User → Option String → IdentityDb → Result AuthError Chosen
unfolding named_tenant only_tenant
choose u none db = ok (only_tenant u db)
choose u (some i) db = named_tenant u i db

unfoldable pub touched : ℕ → UserSession → UserSession
touched now s =
    if leb (s.last_seen_at + touch_interval) now then record s { last_seen_at = now } else s

-- A context, and the tables with the time of the session's last use brought up to date.
unfoldable pub get_auth_context :
    (String → String) → ℕ → Request → IdentityDb → Result AuthError (AuthContext × IdentityDb)
unfolding open_session choose either_given touched
get_auth_context hash now r db = do
  (s, u) ← open_session hash now r.session_cookie db
  chosen ← choose u (either_given r.tenant_header r.tenant_cookie) db
  ok (
    record {
      user = u;
      session = touched now s;
      tenant = chosen.tenant;
      membership = chosen.membership;
      role = chosen.role;
    },
    record db { sessions = write (λ (x : UserSession). x.id == s.id) (touched now) db.sessions },
  )

unfoldable pub require_csrf :
    (String → String) → Request → AuthContext → Result AuthError AuthContext
unfolding require check given
require_csrf hash r c = do
  supplied ← require (given r.csrf_header) "csrf_failed" 403
  check (hash supplied == c.session.csrf_token_hash) "csrf_failed" 403
  ok c

-- `has_permission(context.role, permission)`
unfoldable pub may : AuthContext → Permission → Bool
unfolding has_permission role_value permission_value
may c p = elim c.role [
  | none ↦ false
  | some r ↦ has_permission (some (role_value r)) (permission_value p)
]

unfoldable pub require_permission : Permission → AuthContext → Result AuthError AuthContext
unfolding may check
require_permission p c = do check (may c p) "permission_denied" 403; ok c

unfoldable pub require_tenant : AuthContext → Result AuthError AuthContext
unfolding check
require_tenant c = do check (is_some c.tenant) "tenant_required" 400; ok c

unfoldable pub require_tenant_permission : Permission → AuthContext → Result AuthError AuthContext
unfolding require_tenant require_permission
require_tenant_permission p c = require_tenant c >>= require_permission p
