-- ===== src/Sync.antt =====
-- Synchronisation between devices: the records, the conflict rules and the outbox.
pub mod Conflict
pub mod Queue
pub mod Payload
pub mod Transport
pub mod Engine
pub mod Merge
pub mod Tick
mod Tests
