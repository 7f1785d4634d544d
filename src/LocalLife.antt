-- ===== src/LocalLife.antt =====
-- backend/poi_admin/local_life: the mirrors of products, stock, vouchers and accounts.
pub mod Products
pub mod Orders
pub mod Vouchers
mod Tests
pub mod Accounting
