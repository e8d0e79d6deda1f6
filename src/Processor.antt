-- ===== src/Processor.antt =====
-- server/processor: the service that batches events from the queue into the database.
pub mod Merkle
pub mod Event
pub mod Storage
pub mod Consumer
pub mod Fetching
pub mod Setup
pub mod Service
pub mod Config
