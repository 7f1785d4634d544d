-- ===== src/Identity/Model.antt =====
-- The rows of backend/poi_admin/identity/models.py. A time is a number of microseconds.
use poi_hub.Base.{ℕ, String, Bool, Option, List}

-- `User`
pub record User : Type 0 where
  pub id : String
  pub email : String
  pub display_name : String
  pub password_hash : String
  pub status : String
  pub is_platform_admin : Bool
  pub last_login_at : Option ℕ

-- `Tenant`
pub record Tenant : Type 0 where
  pub id : String
  pub name : String
  pub slug : String
  pub status : String

-- `Membership`
pub record Membership : Type 0 where
  pub id : String
  pub tenant_id : String
  pub user_id : String
  pub role : String
  pub status : String

-- `Invitation`
pub record Invitation : Type 0 where
  pub id : String
  pub tenant_id : String
  pub email : String
  pub role : String
  pub token_hash : String
  pub expires_at : ℕ
  pub accepted_at : Option ℕ
  pub invited_by_user_id : String
  pub accepted_user_id : Option String

-- `UserSession`
pub record UserSession : Type 0 where
  pub id : String
  pub user_id : String
  pub token_hash : String
  pub csrf_token_hash : String
  pub expires_at : ℕ
  pub last_seen_at : ℕ
  pub revoked_at : Option ℕ
  pub user_agent : Option String
  pub ip_address : Option String

pub record IdentityDb : Type 0 where
  pub users : List User
  pub tenants : List Tenant
  pub memberships : List Membership
  pub invitations : List Invitation
  pub sessions : List UserSession

-- `IdentityServiceError` by its code and status, and `ValueError`
pub data IdentityError : Type 0 where
  service : String → ℕ → IdentityError
  value_error : IdentityError
