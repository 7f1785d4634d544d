-- ===== src/LocalLife/Vouchers.antt =====
-- backend/poi_admin/local_life/vouchers.py: vouchers, their consumption and its revocation.
pub mod Model
pub mod Remote
pub mod Service
pub mod Handlers
