-- ===== src/Connections.antt =====
-- backend/poi_admin/connections: the redaction of secrets, and the errors of a gateway.
pub mod Model
pub mod Crypto
pub mod Tokens
mod Tests
pub mod Ports
pub mod Service
