-- ===== src/Identity.antt =====
-- backend/poi_admin/identity: users, tenants, memberships, invitations and sessions.
pub mod Model
pub mod Service
mod Tests
