-- ===== src/Api.antt =====
-- server/api: the service that answers queries and verifies events.
pub mod Merkle
pub mod Event
pub mod Storage
pub mod Verify
pub mod Handlers
pub mod Chain
pub mod Evidence
pub mod Config
pub mod Service
pub mod Lifecycle
