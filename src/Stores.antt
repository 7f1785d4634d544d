-- ===== src/Stores.antt =====
-- backend/poi_admin/stores: the stores of a tenant, the POIs, and the mappings between them.
pub mod Model
pub mod Creation
pub mod Editing
pub mod Mappings
pub mod Candidates
pub mod Pois
pub mod Operations
mod Tests
