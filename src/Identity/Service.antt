-- ===== src/Identity/Service.antt =====
-- `IdentityService` of backend/poi_admin/identity/service.py, each call with no other session in
-- between.
pub mod Invitations
use poi_hub.Base.{
  ℕ, String, ◌+◌, ◌*◌, Bool, true, false, not, Option, none, some, List, [], ◌∷◌, ◌++◌, ◌&&◌, ◌||◌,
  ◌==◌, leb, ltb, is_some, if◌then◌else◌,
}
use poi_hub.Base.Text.{strip_text, text_length, prefix}
use poi_hub.Base.Result.{Result, ok, err, ◌>>=◌, ◌>>◌}
use poi_hub.Base.Rows.{find, any, write}
use poi_hub.Core.Permissions.{Role, tenant_admin, role_value}
use poi_hub.Operations.Errors.{second}
use poi_hub.Identity.Model.{
  User, Tenant, Membership, Invitation, UserSession, IdentityDb, IdentityError, service,
  value_error,
}

-- What the service uses: `str.casefold`, the pattern of an address, SHA-256 in hexadecimal digits, and
-- Argon2 with its check.
pub record Context : Type 0 where
  pub fold : String → String
  pub is_address : String → Bool
  pub sha256 : String → String
  pub argon2 : String → String
  pub verify : String → String → Bool

-- what one call draws on: the ids of new rows, new tokens, and the time
pub record Draw : Type 0 where
  pub first_id : String
  pub second_id : String
  pub token : String
  pub csrf_token : String
  pub now : ℕ

unfoldable pub require : {A : Type 0} → Option A → String → ℕ → Result IdentityError A
require none code status = err (service code status)
require (some a) code status = ok a

unfoldable pub check : Bool → String → ℕ → Result IdentityError Unit
check true code status = ok tt
check false code status = err (service code status)

unfoldable pub normalize_email : Context → String → Result IdentityError String
unfolding strip_text
normalize_email c value =
    let email = c.fold (strip_text value) in
    if c.is_address email then ok email else err value_error

-- `hash_password`
unfoldable pub hash_password : Context → String → Result IdentityError String
hash_password c password =
    if ltb (text_length password) 8 then err value_error else ok (c.argon2 password)

abbrev is_email : String → User → Bool
is_email email u = u.email == email

-- `SESSION_TTL`, twelve hours
abbrev pub session_ttl : ℕ
session_ttl = 43200 * second

-- `(value or "")[:n] or None`
cut : ℕ → Option String → Option String
unfolding prefix
cut n none = none
cut n (some s) = if s == "" then none else some (prefix n s)

abbrev is_user : String → User → Bool
is_user i u = u.id == i

pub record LoginResult : Type 0 where
  pub user : User
  pub session : UserSession
  pub session_token : String
  pub csrf_token : String

-- whether the credentials are those of an active user
unfoldable pub accepts : Context → String → User → Bool
accepts c password u = u.status == "active" && c.verify u.password_hash password

unfoldable pub new_session : Context → Draw → User → Option String → Option String → UserSession
unfolding cut
new_session c draw u user_agent ip_address = record {
  id = draw.first_id;
  user_id = u.id;
  token_hash = c.sha256 draw.token;
  csrf_token_hash = c.sha256 draw.csrf_token;
  expires_at = draw.now + session_ttl;
  last_seen_at = draw.now;
  revoked_at = none;
  user_agent = cut 512 user_agent;
  ip_address = cut 64 ip_address;
}

unfoldable pub authenticate :
    Context
    → Draw
    → String
    → String
    → Option String
    → Option String
    → IdentityDb
    → Result IdentityError (LoginResult × IdentityDb)
unfolding normalize_email require check accepts new_session
authenticate c draw email password user_agent ip_address db = do
  normalized ← normalize_email c email
  u ← require (find (is_email normalized) db.users) "invalid_credentials" 401
  check (accepts c password u) "invalid_credentials" 401
  let s = new_session c draw u user_agent ip_address
  let u' = record u { last_login_at = some draw.now }
  ok (
    record { user = u'; session = s; session_token = draw.token; csrf_token = draw.csrf_token },
    record db { users = write (is_user u.id) (λ _. u') db.users; sessions = db.sessions ++ s ∷ [] },
  )

unfoldable pub is_member : String → String → Membership → Bool
is_member tenant user m = m.tenant_id == tenant && m.user_id == user

-- an active membership of the user with the role of a tenant administrator
unfoldable pub manages : User → String → IdentityDb → Bool
unfolding is_member role_value
manages actor tenant db =
    elim (find (λ m. is_member tenant actor.id m && m.status == "active") db.memberships) [
      | none ↦ false
      | some m ↦ m.role == role_value tenant_admin
    ]

abbrev pub is_active_tenant : Option Tenant → Bool
is_active_tenant none = false
is_active_tenant (some t) = t.status == "active"

abbrev pub tenant_of : String → IdentityDb → Option Tenant
tenant_of i db = find (λ (t : Tenant). t.id == i) db.tenants

-- The invitation, its token, and the tables.
unfoldable pub create_invitation :
    Context
    → Draw
    → User
    → String
    → String
    → Role
    → ℕ
    → IdentityDb
    → Result IdentityError ((Invitation × String) × IdentityDb)
unfolding check role_value manages normalize_email
create_invitation c draw actor tenant email role expires_in_days db = do
  check (is_active_tenant (tenant_of tenant db)) "tenant_not_found" 404
  check (not (role_value role == "platform_admin")) "invalid_invitation_role" 422
  check (actor.is_platform_admin || manages actor tenant db) "permission_denied" 403
  normalized ← normalize_email c email
  let i : Invitation = record {
    id = draw.first_id;
    tenant_id = tenant;
    email = normalized;
    role = role_value role;
    token_hash = c.sha256 draw.token;
    expires_at = draw.now + expires_in_days * (86400 * second);
    accepted_at = none;
    invited_by_user_id = actor.id;
    accepted_user_id = none;
  }
  ok ((i, draw.token), record db { invitations = db.invitations ++ i ∷ [] })

-- the user of the address: the row, or a new one
unfoldable pub invited_user :
    Context
    → Draw
    → String
    → String
    → String
    → IdentityDb
    → Result IdentityError (User × IdentityDb)
unfolding hash_password strip_text
invited_user c draw email password display_name db = elim (find (is_email email) db.users) [
  | some u ↦ if u.status == "active" then ok (u, db) else err (service "user_inactive" 403)
  | none ↦ do
    hash ← hash_password c password
    let u : User = record {
      id = draw.first_id;
      email = email;
      display_name = strip_text display_name;
      password_hash = hash;
      status = "active";
      is_platform_admin = false;
      last_login_at = none;
    }
    ok (u, record db { users = db.users ++ u ∷ [] })
]

abbrev pub granted : Invitation → Membership → Membership
granted i m = record m { role = i.role; status = "active" }

-- The membership gets the role of the invitation, a new one or the row that is there.
unfoldable pub grant : Draw → Invitation → User → IdentityDb → Membership × IdentityDb
unfolding is_member
grant draw i u db = elim (find (is_member i.tenant_id u.id) db.memberships) [
  | none ↦
      let m : Membership = record {
        id = draw.second_id;
        tenant_id = i.tenant_id;
        user_id = u.id;
        role = i.role;
        status = "active";
      } in
      (m, record db { memberships = db.memberships ++ m ∷ [] })
  | some m ↦ (
    granted i m,
    record db { memberships = write (is_member i.tenant_id u.id) (granted i) db.memberships },
  )
]

unfoldable pub has_token : String → Invitation → Bool
has_token hash i = i.token_hash == hash

unfoldable pub accepted : User → ℕ → Invitation → Invitation
accepted u now i = record i { accepted_at = some now; accepted_user_id = some u.id }

-- The checks on an invitation, in the order of the code.
unfoldable pub open_invitation : String → ℕ → IdentityDb → Result IdentityError Invitation
unfolding require check has_token
open_invitation hash now db = do
  i ← require (find (has_token hash) db.invitations) "invalid_invitation" 400
  check (not (is_some i.accepted_at)) "invitation_used" 409
  check (not (leb i.expires_at now)) "invitation_expired" 410
  check (is_active_tenant (tenant_of i.tenant_id db)) "tenant_inactive" 403
  ok i

unfoldable pub accept_invitation :
    Context
    → Draw
    → String
    → String
    → String
    → IdentityDb
    → Result IdentityError ((User × Membership) × IdentityDb)
unfolding open_invitation normalize_email invited_user grant accepted has_token
accept_invitation c draw token password display_name db = do
  i ← open_invitation (c.sha256 token) draw.now db
  email ← normalize_email c i.email
  (u, db') ← invited_user c draw email password display_name db
  let (m, granted_db) = grant draw i u db'
  ok (
    (u, m),
    record granted_db {
      invitations = write (has_token (c.sha256 token)) (accepted u draw.now) granted_db.invitations;
    },
  )

abbrev is_session : String → UserSession → Bool
is_session i s = s.id == i

unfoldable revoke_session : String → ℕ → IdentityDb → IdentityDb
revoke_session i now db = record db {
  sessions =
      write (is_session i) (λ (s : UserSession). record s { revoked_at = some now }) db.sessions;
}

unfoldable rotate_csrf : Context → Draw → String → IdentityDb → String × IdentityDb
rotate_csrf c draw i db = (
  draw.csrf_token,
  record db {
    sessions =
        write (is_session i)
          (λ (s : UserSession). record s { csrf_token_hash = c.sha256 draw.csrf_token })
          db.sessions;
  },
)
