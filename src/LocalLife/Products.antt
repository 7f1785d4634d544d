-- ===== src/LocalLife/Products.antt =====
-- backend/poi_admin/local_life/products.py: the life cycle of a product and the stock of its SKUs.
pub mod Status
pub mod Model
pub mod Service
pub mod Stock
pub mod Handlers
pub mod Creation
pub mod Intent
pub mod Settled
pub mod Applied
pub mod Restock
