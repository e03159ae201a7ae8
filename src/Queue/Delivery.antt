-- ===== src/Queue/Delivery.antt =====
-- internal/queue/storage_ack.go: queues whose messages are acknowledged.
pub mod Defs
pub mod Slots
pub mod Writes
pub mod Kept
pub mod Effects
pub mod Rejection
pub mod Receive
pub mod Expected
pub mod Popping
pub mod Items
pub mod Expiry
