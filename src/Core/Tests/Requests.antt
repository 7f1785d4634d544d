-- ===== src/Core/Tests/Requests.antt =====
-- Runs of the dependencies of backend/poi_admin/core/dependencies.py on concrete rows.
use poi_hub.Base.{String, ◌≡◌, refl, true, false, arith, none, some, [], ◌∷◌}
use poi_hub.Base.Result.{ok, ok_or}
use poi_hub.Core.Permissions.{manage_products, coerce_role}
use poi_hub.Identity.Model.{User, Tenant, Membership, UserSession, IdentityDb}
use poi_hub.Identity.Service.{Context, Draw, LoginResult, authenticate}
use poi_hub.Core.Dependencies.{
  Request, AuthContext, refuse, get_auth_context, require_csrf, require_tenant_permission,
}
use poi_hub.Core.Dependencies.Sessions.{IsOpen}
use poi_hub.Core.Dependencies.Access.{
  Entitles, require_tenant_permission-Entitles, get_auth_context_unnamed,
}
use poi_hub.Core.Dependencies.Login.{with_tokens, get_auth_context-authenticate}

abbrev same_text : String → String
same_text s = s

abbrev member : User
member = record {
  id = "u";
  email = "a@example.com";
  display_name = "A";
  password_hash = "h";
  status = "active";
  is_platform_admin = false;
  last_login_at = none;
}

abbrev tenant : String → Tenant
tenant status = record { id = "t"; name = "T"; slug = "t"; status = status }

abbrev membership : Membership
membership = record {
  id = "m";
  tenant_id = "t";
  user_id = "u";
  role = "operator";
  status = "active";
}

abbrev session : UserSession
session = record {
  id = "s";
  user_id = "u";
  token_hash = "token";
  csrf_token_hash = "csrf";
  expires_at = 1000;
  last_seen_at = 0;
  revoked_at = none;
  user_agent = none;
  ip_address = none;
}

abbrev db : String → IdentityDb
db status = record {
  users = member ∷ [];
  tenants = tenant status ∷ [];
  memberships = membership ∷ [];
  invitations = [];
  sessions = session ∷ [];
}

abbrev naming : Request
naming = record {
  session_cookie = some "token";
  tenant_header = some "t";
  tenant_cookie = none;
  csrf_header = none;
}

abbrev unnaming : Request
unnaming = record naming { tenant_header = none }

abbrev blank : AuthContext
blank = record { user = member; session = session; tenant = none; membership = none; role = none }

abbrev entered : AuthContext × IdentityDb
unfolding get_auth_context
entered = ok_or (get_auth_context same_text 50 naming (db "active")) (blank, db "active")

enter : get_auth_context same_text 50 naming (db "active") ≡ ok (entered.0, entered.1)
unfolding get_auth_context
enter = refl

allowed : require_tenant_permission manage_products entered.0 ≡ ok entered.0
unfolding require_tenant_permission get_auth_context
allowed = refl

require_tenant_permission-Entitles_example :
    (t : Tenant) × (entered.0.tenant ≡ some t)
    × IsOpen same_text 50 (some "token") (db "active") entered.0.user
    × Entitles manage_products entered.0.user t (db "active")
unfolding get_auth_context
require_tenant_permission-Entitles_example =
    require_tenant_permission-Entitles same_text 50 naming (db "active") entered.1 entered.0
      entered.0 manage_products enter allowed refl

get_auth_context_unnamed_example :
    (get_auth_context same_text 50 naming (db "suspended") ≡ refuse "tenant_not_found" 404)
    × (c : AuthContext) × (db' : IdentityDb) × (get_auth_context same_text 50 unnaming
          (db "suspended")
        ≡ ok (c, db'))
    × (c.tenant ≡ some (tenant "suspended"))
    × (c.role ≡ coerce_role "operator")
unfolding get_auth_context
get_auth_context_unnamed_example =
    get_auth_context_unnamed same_text 50 naming unnaming (db "suspended") session member membership
      (tenant "suspended") refl refl refl refl refl refl refl refl

abbrev context : Context
context = record {
  fold = λ s. s;
  is_address = λ s. true;
  sha256 = λ s. s;
  argon2 = λ s. s;
  verify = λ h s. true;
}

abbrev draw : Draw
draw = record {
  first_id = "i-1";
  second_id = "i-2";
  token = "secret";
  csrf_token = "forgery";
  now = 100;
}

abbrev login : LoginResult × IdentityDb
unfolding authenticate
login =
    ok_or (authenticate context draw "a@example.com" "password" none none (db "active")) (
      record { user = member; session = session; session_token = ""; csrf_token = "" },
      db "active",
    )

log_in :
    authenticate context draw "a@example.com" "password" none none (db "active")
    ≡ ok (login.0, login.1)
unfolding authenticate
log_in = refl

get_auth_context-authenticate_example :
    (d : AuthContext) × (db'' : IdentityDb) × (get_auth_context same_text 150
        (with_tokens login.0)
        login.1
      ≡ ok (d, db''))
    × (d.user ≡ login.0.user)
    × (d.session.id ≡ login.0.session.id)
    × (require_csrf same_text (with_tokens login.0) d ≡ ok d)
get_auth_context-authenticate_example =
    get_auth_context-authenticate context draw "a@example.com" "password" none none (db "active")
      login.0 login.1 log_in 150 (ground arith) (ground arith) refl refl refl
