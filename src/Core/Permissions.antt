-- ===== src/Core/Permissions.antt =====
-- backend/poi_admin/core/permissions.py: the fixed roles and what each may do.
use poi_hub.Base.{
  String, ◌≡◌, refl, sym, ap, ◌∙◌, Bool, true, false, Option, none, some, List, [], ◌∷◌, ◌&&◌, ◌==◌,
  arith, Option-cases, Bool-cases, inl, inr, ◌↔◌, eq_iff,
}
use poi_hub.Base.Rows.{any, find}
use poi_hub.Base.Rows.Laws.{find-test}

pub data Role : Type 0 where
  platform_admin tenant_admin operator verifier auditor : Role

pub data Permission : Type 0 where
  manage_tenants manage_members view_members manage_connections manage_stores view_stores
        manage_mappings view_mappings view_products manage_products manage_inventory view_orders
        manage_orders consume_vouchers manage_after_sales view_accounting view_operations
        manage_operations view_audit view_dashboard :
      Permission

-- `role.value`
unfoldable pub role_value : Role → String
role_value platform_admin = "platform_admin"
role_value tenant_admin = "tenant_admin"
role_value operator = "operator"
role_value verifier = "verifier"
role_value auditor = "auditor"

-- `permission.value`
unfoldable pub permission_value : Permission → String
permission_value manage_tenants = "manage_tenants"
permission_value manage_members = "manage_members"
permission_value view_members = "view_members"
permission_value manage_connections = "manage_connections"
permission_value manage_stores = "manage_stores"
permission_value view_stores = "view_stores"
permission_value manage_mappings = "manage_mappings"
permission_value view_mappings = "view_mappings"
permission_value view_products = "view_products"
permission_value manage_products = "manage_products"
permission_value manage_inventory = "manage_inventory"
permission_value view_orders = "view_orders"
permission_value manage_orders = "manage_orders"
permission_value consume_vouchers = "consume_vouchers"
permission_value manage_after_sales = "manage_after_sales"
permission_value view_accounting = "view_accounting"
permission_value view_operations = "view_operations"
permission_value manage_operations = "manage_operations"
permission_value view_audit = "view_audit"
permission_value view_dashboard = "view_dashboard"

-- `set(Permission)`
abbrev all_permissions : List Permission
all_permissions =
    manage_tenants ∷ manage_members ∷ view_members ∷ manage_connections ∷ manage_stores
    ∷ view_stores ∷ manage_mappings ∷ view_mappings ∷ view_products ∷ manage_products
    ∷ manage_inventory ∷ view_orders ∷ manage_orders ∷ consume_vouchers ∷ manage_after_sales
    ∷ view_accounting ∷ view_operations ∷ manage_operations ∷ view_audit ∷ view_dashboard ∷ []

abbrev tenant_admin_permissions : List Permission
tenant_admin_permissions =
    manage_members ∷ view_members ∷ manage_connections ∷ manage_stores ∷ view_stores
    ∷ manage_mappings ∷ view_mappings ∷ view_products ∷ manage_products ∷ manage_inventory
    ∷ view_orders ∷ manage_orders ∷ consume_vouchers ∷ manage_after_sales ∷ view_accounting
    ∷ view_operations ∷ manage_operations ∷ view_audit ∷ view_dashboard ∷ []

-- `ROLE_PERMISSIONS`
unfoldable role_permissions : Role → List Permission
role_permissions platform_admin = all_permissions
role_permissions tenant_admin = tenant_admin_permissions
role_permissions operator =
    manage_stores ∷ view_stores ∷ manage_mappings ∷ view_mappings ∷ view_products ∷ manage_products
    ∷ manage_inventory ∷ view_orders ∷ manage_orders ∷ view_accounting ∷ view_operations
    ∷ manage_operations ∷ view_dashboard ∷ []
role_permissions verifier = consume_vouchers ∷ view_orders ∷ view_operations ∷ []
role_permissions auditor =
    view_accounting ∷ view_operations ∷ view_audit ∷ view_stores ∷ view_mappings ∷ view_products
    ∷ view_orders ∷ view_dashboard ∷ []

abbrev same_permission : Permission → Permission → Bool
same_permission p q = permission_value p == permission_value q

abbrev all_roles : List Role
all_roles = platform_admin ∷ tenant_admin ∷ operator ∷ verifier ∷ auditor ∷ []

-- `coerce_role`
unfoldable pub coerce_role : String → Option Role
unfolding role_value
coerce_role s = find (λ r. role_value r == s) all_roles

pub coerce_role-value : (s : String) (r : Role) → coerce_role s ≡ some r → role_value r ≡ s
unfolding coerce_role
coerce_role-value s r e =
    (eq_iff (role_value r) s).0 (find-test (λ x. role_value x == s) all_roles r e)

-- `Permission(permission)`; `none` is the `ValueError`
unfoldable parse_permission : String → Option Permission
unfolding permission_value
parse_permission s = find (λ p. permission_value p == s) all_permissions

-- The role is a stored text or none, the permission a text.
unfoldable pub has_permission : Option String → String → Bool
unfolding coerce_role parse_permission role_permissions permission_value
has_permission none permission = false
has_permission (some role) permission = elim (coerce_role role) [
  | none ↦ false
  | some r ↦ elim (parse_permission permission) [
    | none ↦ false
    | some p ↦ any (same_permission p) (role_permissions r)
  ]
]

included : List Permission → List Permission → Bool
unfolding permission_value
included [] ys = true
included (x ∷ xs) ys = any (same_permission x) ys && included xs ys

any-same :
    (p q : Permission) (ys : List Permission)
    → same_permission p q ≡ true
    → any (same_permission q) ys ≡ true
    → any (same_permission p) ys ≡ true
any-same p q [] s h = ground arith
any-same p q (y ∷ ys) s h =
    ground (arith, eq_iff (permission_value p) (permission_value q), any-same p q ys)

included-any :
    (p : Permission) (xs ys : List Permission)
    → included xs ys ≡ true
    → any (same_permission p) xs ≡ true
    → any (same_permission p) ys ≡ true
unfolding included
included-any p [] ys i h = ground arith
included-any p (x ∷ xs) ys i h = elim (Bool-cases (same_permission p x)) [
  | inl same ↦ any-same p x ys same (ground arith)
  | inr other ↦ included-any p xs ys (ground arith) (ground arith)
]

below :
    (r : Role) (p : Permission)
    → (r ≡ platform_admin → ⊥)
    → any (same_permission p) (role_permissions r) ≡ true
    → any (same_permission p) (role_permissions tenant_admin) ≡ true
unfolding role_permissions included permission_value
below platform_admin p h e = absurd (h refl)
below tenant_admin p h e = e
below operator p h e = included-any p (role_permissions operator) tenant_admin_permissions refl e
below verifier p h e = included-any p (role_permissions verifier) tenant_admin_permissions refl e
below auditor p h e = included-any p (role_permissions auditor) tenant_admin_permissions refl e

platform : role_value platform_admin ≡ "platform_admin"
unfolding role_value
platform = refl

-- Whatever a stored role may do, the tenant administrator may do too, unless it is the platform
-- administrator's.
pub tenant_admin_covers :
    (role : Option String) (permission : String)
    → (role ≡ some "platform_admin" → ⊥)
    → has_permission role permission ≡ true
    → has_permission (some "tenant_admin") permission ≡ true
unfolding has_permission
tenant_admin_covers none permission other h = absurd (ground arith)
tenant_admin_covers (some role) permission other h = elim (Option-cases (coerce_role role)) [
  | inl unknown ↦ absurd (ground arith)
  | inr (r, known) ↦ elim (Option-cases (parse_permission permission)) [
    | inl unnamed ↦ absurd (ground arith)
    | inr (p, named) ↦
        let named_so : role_value r ≡ role =
          (eq_iff (role_value r) role).0
            (find-test (λ x. role_value x == role) all_roles r (unfold coerce_role in known)) in
        let mine : any (same_permission p) (role_permissions r) ≡ true = ground arith in
        rw (named, has_permission)
          (below r p (λ e. other (ap some (sym named_so ∙ ap role_value e ∙ platform))) mine)
  ]
]

-- Nobody but the platform administrator manages tenants: the permission goes with one stored role.
pub manage_tenants_role :
    (role : Option String)
    → (has_permission role "manage_tenants" ≡ true) ↔ (role ≡ some "platform_admin")
unfolding has_permission coerce_role parse_permission role_permissions permission_value role_value
manage_tenants_role none = (λ h. absurd (ground arith), λ e. absurd (ground arith))
manage_tenants_role (some role) =
    (λ h. ground (arith, eq_iff "platform_admin" role), λ e. rw e refl)
