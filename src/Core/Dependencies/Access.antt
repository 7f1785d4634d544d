-- ===== src/Core/Dependencies/Access.antt =====
-- Who gets at a tenant, of backend/poi_admin/core/dependencies.py.
use poi_hub.Base.{
  ℕ, String, ◌≡◌, refl, sym, ◌∙◌, true, false, none, some, [], ◌∷◌, ◌==◌, arith, Bool-cases,
  Option-cases, inl, inr,
}
use poi_hub.Base.Rows.{find, select, write}
use poi_hub.Base.Result.{ok, after_ok}
use poi_hub.Core.Permissions.{
  Role, Permission, role_value, permission_value, coerce_role, coerce_role-value, has_permission,
}
use poi_hub.Identity.Model.{User, Tenant, Membership, UserSession, IdentityDb}
use poi_hub.Core.Dependencies.{
  Request, AuthContext, Chosen, require, check, refuse, either_given, tenant_of, is_active_member,
  belongs, open_session, named_tenant, sole, only_tenant, choose, touched, get_auth_context, may,
  require_tenant, require_permission, require_tenant_permission,
}
use poi_hub.Core.Dependencies.Sessions.{IsOpen, open_session-IsOpen}
use poi_hub.Core.Dependencies.Placement.{Placed, choose-Placed}

-- A membership of the user in the tenant, that is active and has a role with the permission.
pub record Entitles (p : Permission) (u : User) (t : Tenant) (db : IdentityDb) : Type 0 where
  pub membership : Membership
  pub row : find (is_active_member t.id u.id) db.memberships ≡ some membership
  pub permitted : has_permission (some membership.role) (permission_value p) ≡ true

coerced :
    (role : String) (r : Role) (p : Permission)
    → coerce_role role ≡ some r
    → has_permission (some (role_value r)) (permission_value p)
      ≡ has_permission (some role) (permission_value p)
coerced role r p e = rw (coerce_role-value role r e) refl

may-Entitles :
    (p : Permission) (c : AuthContext) (chosen : Chosen) (t : Tenant) (db : IdentityDb)
    → c.role ≡ chosen.role
    → Placed chosen c.user t db
    → may c p ≡ true
    → Entitles p c.user t db
unfolding may
may-Entitles p c chosen t db same placed h = elim (Option-cases c.role) [
  | inl none' ↦ absurd (ground arith)
  | inr (r, has) ↦ record {
    membership = placed.membership;
    row = placed.row;
    permitted =
        (sym (coerced placed.membership.role r p (sym placed.role ∙ (sym same ∙ has))))
        ∙ ground arith;
  }
]

permitted :
    (p : Permission) (c d : AuthContext)
    → require_tenant_permission p c ≡ ok d
    → (may c p ≡ true) × (t : Tenant) × (c.tenant ≡ some t)
unfolding require_tenant_permission require_tenant require_permission check
permitted p c d e = elim (Option-cases c.tenant) [
  | inl none' ↦ absurd (ground arith)
  | inr (t, there) ↦ elim (Bool-cases (may c p)) [
    | inl h ↦ (h, t, there)
    | inr h ↦ absurd (ground arith)
  ]
]

-- A request that passes for a permission in a tenant, of a user who is no platform administrator: its
-- session has neither been revoked nor run out, the user is active, and the user has an active
-- membership of this tenant whose role gives the permission.
pub require_tenant_permission-Entitles :
    (hash : String → String) (now : ℕ) (r : Request) (db db' : IdentityDb) (c d : AuthContext)
    (p : Permission)
    → get_auth_context hash now r db ≡ ok (c, db')
    → require_tenant_permission p c ≡ ok d
    → c.user.is_platform_admin ≡ false
    → (t : Tenant) × (c.tenant ≡ some t)
      × IsOpen hash now r.session_cookie db c.user
      × Entitles p c.user t db
unfolding get_auth_context require_tenant_permission
require_tenant_permission-Entitles hash now r db db' c d p e passed plain =
    let (granted, t, there) = permitted p c d passed in
    after_ok (open_session hash now r.session_cookie db) _ (c, db') _
      (λ su opened rest.
        after_ok (choose su.1 (either_given r.tenant_header r.tenant_cookie) db) _ (c, db') _
          (λ chosen picked last.
            let user : su.1 ≡ c.user = ground arith in
            let role : c.role ≡ chosen.role = ground arith in
            let place : chosen.tenant ≡ some t = ground arith in
            let same : choose c.user (either_given r.tenant_header r.tenant_cookie) db ≡ ok chosen =
              rw (← user) picked in
            (
              t,
              there,
              rw (← user) (open_session-IsOpen hash now r.session_cookie db su.0 su.1 opened),
              may-Entitles p c chosen t db role
                  (choose-Placed c.user (either_given r.tenant_header r.tenant_cookie) db chosen t
                    plain same place)
                  granted,
            ))
          rest)
      e

-- A tenant that is not active, and a user, no platform administrator, whose only active membership is
-- in it: a request that names the tenant is refused as if there were none, but one that names no
-- tenant is let into it, with the role of the membership.
pub get_auth_context_unnamed :
    (hash : String → String) (now : ℕ) (r r' : Request) (db : IdentityDb) (s : UserSession)
    (u : User) (m : Membership) (t : Tenant)
    → open_session hash now r.session_cookie db ≡ ok (s, u)
    → open_session hash now r'.session_cookie db ≡ ok (s, u)
    → u.is_platform_admin ≡ false
    → select (belongs u.id) db.memberships ≡ m ∷ []
    → tenant_of m.tenant_id db ≡ some t
    → (t.status == "active") ≡ false
    → either_given r.tenant_header r.tenant_cookie ≡ some m.tenant_id
    → either_given r'.tenant_header r'.tenant_cookie ≡ none
    → (get_auth_context hash now r db ≡ refuse "tenant_not_found" 404)
      × (c : AuthContext) × (db' : IdentityDb) × (get_auth_context hash now r' db ≡ ok (c, db'))
      × (c.tenant ≡ some t)
      × (c.role ≡ coerce_role m.role)
unfolding get_auth_context choose named_tenant only_tenant sole require check
get_auth_context_unnamed hash now r r' db s u m t opened opened' plain only there inactive named
      unnamed =
    (
      rw (get_auth_context, opened, named, there, inactive) refl,
      record {
        user = u;
        session = touched now s;
        tenant = some t;
        membership = some m;
        role = coerce_role m.role;
      },
      record db { sessions = write (λ (x : UserSession). x.id == s.id) (touched now) db.sessions },
      rw (get_auth_context, opened', unnamed, plain, only, there) refl,
      refl,
      refl,
    )
