-- ===== src/EventStore.antt =====
-- packages/event-store: the append-only store of events and run revisions.
pub mod Keys
pub mod Values
pub mod Seen
pub mod Serialize
pub mod Redaction
pub mod Memory
pub mod Operations
pub mod Methods
mod Examples
