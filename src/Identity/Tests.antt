-- ===== src/Identity/Tests.antt =====
-- Runs of the invitations of backend/poi_admin/identity/service.py on concrete rows.
use poi_hub.Base.{String, ◌≡◌, refl, true, false, none, [], ◌∷◌, ◌++◌, ◌||◌, ◌==◌}
use poi_hub.Base.Result.{ok, err, ok_or}
use poi_hub.Core.Permissions.{operator, role_value}
use poi_hub.Identity.Model.{User, Tenant, Membership, Invitation, IdentityDb, service}
use poi_hub.Identity.Service.{
  Context, Draw, is_active_tenant, tenant_of, manages, create_invitation, accept_invitation,
}
use poi_hub.Identity.Service.Invitations.{
  Opened, accept_invitation-Opened, accept_invitation_once, create_invitation_guards,
}

abbrev context : Context
context = record {
  fold = λ s. s;
  is_address = λ s. true;
  sha256 = λ s. s;
  argon2 = λ s. s;
  verify = λ h s. h == s;
}

abbrev draw : Draw
draw = record {
  first_id = "i-1";
  second_id = "i-2";
  token = "secret";
  csrf_token = "csrf";
  now = 100;
}

abbrev admin : User
admin = record {
  id = "u";
  email = "admin@example.com";
  display_name = "Admin";
  password_hash = "h";
  status = "active";
  is_platform_admin = false;
  last_login_at = none;
}

abbrev tenant : Tenant
tenant = record { id = "t"; name = "T"; slug = "t"; status = "active" }

abbrev membership : Membership
membership = record {
  id = "m";
  tenant_id = "t";
  user_id = "u";
  role = "tenant_admin";
  status = "active";
}

abbrev db : IdentityDb
db = record {
  users = admin ∷ [];
  tenants = tenant ∷ [];
  memberships = membership ∷ [];
  invitations = [];
  sessions = [];
}

abbrev blank : Invitation
blank = record {
  id = "";
  tenant_id = "";
  email = "";
  role = "";
  token_hash = "";
  expires_at = 0;
  accepted_at = none;
  invited_by_user_id = "";
  accepted_user_id = none;
}

abbrev made : (Invitation × String) × IdentityDb
made =
    ok_or (create_invitation context draw admin "t" "new@example.com" operator 7 db)
      ((blank, ""), db)

invite :
    create_invitation context draw admin "t" "new@example.com" operator 7 db
    ≡ ok ((made.0.0, made.0.1), made.1)
unfolding create_invitation
invite = refl

create_invitation_guards_example :
    (made.0.0.role ≡ role_value operator)
    × (role_value operator == "platform_admin" ≡ false)
    × (is_active_tenant (tenant_of "t" db) ≡ true)
    × (false || manages admin "t" db ≡ true)
    × (made.0.0.token_hash ≡ context.sha256 made.0.1)
    × (made.1.invitations ≡ db.invitations ++ made.0.0 ∷ [])
create_invitation_guards_example =
    create_invitation_guards context draw admin "t" "new@example.com" operator 7 db made.0.0
      made.0.1 made.1 invite

abbrev joined : (User × Membership) × IdentityDb
joined =
    ok_or (accept_invitation context draw "secret" "password" "New" made.1)
      ((admin, membership), db)

join :
    accept_invitation context draw "secret" "password" "New" made.1
    ≡ ok ((joined.0.0, joined.0.1), joined.1)
unfolding accept_invitation create_invitation
join = refl

accept_invitation-Opened_example :
    Opened context draw "secret" made.1 joined.0.0 joined.0.1 joined.1
accept_invitation-Opened_example =
    accept_invitation-Opened context draw "secret" "password" "New" made.1 joined.0.0 joined.0.1
      joined.1 join

accept_invitation_once_example :
    accept_invitation context draw "secret" "other password" "Other" joined.1
    ≡ err (service "invitation_used" 409)
accept_invitation_once_example =
    accept_invitation_once context draw draw "secret" "password" "New" "other password" "Other"
      made.1 joined.0.0 joined.0.1 joined.1 join
