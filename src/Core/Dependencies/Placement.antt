-- ===== src/Core/Dependencies/Placement.antt =====
-- The tenant that is chosen for a user, of backend/poi_admin/core/dependencies.py.
use poi_hub.Base.{
  String, ◌≡◌, refl, ◌∙◌, false, Option, none, some, List, [], ◌∷◌, ◌||◌, ◌==◌, arith, eq_iff,
  eq_refl, is_some, Option-cases, inl, inr,
}
use poi_hub.Base.Rows.{find, select}
use poi_hub.Base.Rows.Laws.{find-test, select-find, find_narrow}
use poi_hub.Base.Result.{ok, after_ok}
use poi_hub.Core.Permissions.{coerce_role}
use poi_hub.Identity.Model.{User, Tenant, Membership, IdentityDb}
use poi_hub.Identity.Service.{is_member}
use poi_hub.Core.Dependencies.{
  Chosen, require, check, tenant_of, is_active_member, belongs, role_of, named_tenant, sole,
  only_tenant, choose,
}
use poi_hub.Core.Dependencies.Sessions.{required, checked}

-- the choice is of a tenant in which the user has the membership that gives the role
pub record Placed (c : Chosen) (u : User) (t : Tenant) (db : IdentityDb) : Type 0 where
  pub membership : Membership
  pub row : find (is_active_member t.id u.id) db.memberships ≡ some membership
  pub role : c.role ≡ coerce_role membership.role

tenant_id-of : (i : String) (t : Tenant) (db : IdentityDb) → tenant_of i db ≡ some t → t.id ≡ i
tenant_id-of i t db e = (eq_iff t.id i).0 (find-test (λ (x : Tenant). x.id == i) db.tenants t e)

named-Placed :
    (u : User) (i : String) (db : IdentityDb) (c : Chosen) (t : Tenant)
    → u.is_platform_admin ≡ false
    → named_tenant u i db ≡ ok c
    → c.tenant ≡ some t
    → Placed c u t db
unfolding named_tenant
named-Placed u i db c t plain e there =
    after_ok (require (tenant_of i db) "tenant_not_found" 404) _ c _
      (λ x a r1.
        after_ok (check (x.status == "active") "tenant_not_found" 404) _ c _
          (λ _ _ r2.
            after_ok
              (check
                (is_some (find (is_active_member i u.id) db.memberships) || u.is_platform_admin)
                "tenant_access_denied" 403)
              _ c _
              (λ _ b last. elim (Option-cases (find (is_active_member i u.id) db.memberships)) [
                | inl none' ↦ let h = checked _ _ _ _ b in absurd (ground arith)
                | inr (m, found) ↦
                    let role' : c.role ≡ role_of (find (is_active_member i u.id) db.memberships) =
                      ground arith in
                    let its : x ≡ t = ground arith in
                    let key : t.id ≡ i = rw (← its) (tenant_id-of i x db (required _ _ _ x a)) in
                    record {
                      membership = m;
                      row = rw key found;
                      role = role' ∙ rw (found, role_of) refl;
                    }
              ])
              r2)
          r1)
      e

sole-Placed :
    (u : User) (ms : List Membership) (db : IdentityDb) (t : Tenant)
    → select (belongs u.id) db.memberships ≡ ms
    → (sole ms db).tenant ≡ some t
    → Placed (sole ms db) u t db
unfolding sole belongs is_active_member is_member
sole-Placed u [] db t e there = absurd (ground arith)
sole-Placed u (m ∷ []) db t e there =
    let found = select-find (belongs u.id) db.memberships m [] e in
    let key : t.id ≡ m.tenant_id = tenant_id-of m.tenant_id t db there in
    let mine = find-test (belongs u.id) db.memberships m found in
    record {
      membership = m;
      row = rw key (
          find_narrow (belongs u.id) (is_active_member m.tenant_id u.id) (λ x h. ground arith)
            db.memberships m found (ground (arith, eq_refl m.tenant_id)));
      role = refl;
    }
sole-Placed u (m ∷ n ∷ ms) db t e there = absurd (ground arith)

only-Placed :
    (u : User) (db : IdentityDb) (t : Tenant)
    → u.is_platform_admin ≡ false
    → (only_tenant u db).tenant ≡ some t
    → Placed (only_tenant u db) u t db
unfolding only_tenant
only-Placed u db t plain there =
    let same : only_tenant u db ≡ sole (select (belongs u.id) db.memberships) db =
      rw (only_tenant, plain) refl in
    rw same (sole-Placed u (select (belongs u.id) db.memberships) db t refl (rw (← same) there))

pub choose-Placed :
    (u : User) (named : Option String) (db : IdentityDb) (c : Chosen) (t : Tenant)
    → u.is_platform_admin ≡ false
    → choose u named db ≡ ok c
    → c.tenant ≡ some t
    → Placed c u t db
unfolding choose
choose-Placed u none db c t plain e there =
    let same : only_tenant u db ≡ c = ground arith in
    rw (← same) (only-Placed u db t plain (rw same there))
choose-Placed u (some i) db c t plain e there = named-Placed u i db c t plain e there
