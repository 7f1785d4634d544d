-- ===== src/Operations.antt =====
-- backend/poi_admin/operations: the durable queue of integration operations and its worker.
pub mod Model
pub mod Errors
pub mod Enqueue
pub mod Lease
pub mod Outcome
pub mod Retry
pub mod Worker
pub mod Steps
mod Tests
