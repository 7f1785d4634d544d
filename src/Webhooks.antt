-- ===== src/Webhooks.antt =====
-- backend/poi_admin/webhooks, and the part of backend/poi_admin/operations/worker.py that runs the
-- inbox of callbacks.
pub mod Model
pub mod Crypto
pub mod Inbox
pub mod Worker
pub mod Process
mod Tests
