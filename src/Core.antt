-- ===== src/Core.antt =====
-- backend/poi_admin/core: the permissions of the roles and the license.
pub mod Permissions
pub mod Licensing
pub mod Dependencies
mod Tests
