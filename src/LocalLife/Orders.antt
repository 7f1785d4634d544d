-- ===== src/LocalLife/Orders.antt =====
-- The mirrors of orders and after-sales of backend/poi_admin/local_life: their rows, the helpers and
-- the service of orders.py, and the handlers.
pub mod Model
pub mod Summaries
pub mod Service
pub mod Handlers
