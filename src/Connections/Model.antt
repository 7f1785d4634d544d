-- ===== src/Connections/Model.antt =====
-- The rows of backend/poi_admin/connections/models.py. A time is a number of microseconds.
use poi_hub.Base.{ℕ, String, Option}
use poi_hub.Base.Json.{Fields}

-- `WeChatConnection`. `capability`, `mode` and `status` are the texts of the columns.
pub record WeChatConnection : Type 0 where
  pub id : String
  pub tenant_id : String
  pub capability : String
  pub mode : String
  pub mock_scenario : String
  pub status : String
  pub app_id : Option String
  pub merchant_id : Option String
  pub encrypted_secrets : Option String
  pub token_expires_at : Option ℕ
  pub permission_snapshot : Option Fields
  pub last_health_check_at : Option ℕ
  pub last_error : Option String
  pub created_at : ℕ
