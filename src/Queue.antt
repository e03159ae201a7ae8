-- ===== src/Queue.antt =====
-- internal/queue: queues kept in a Badger database.
pub mod Keys
pub mod Message
pub mod Delivery
pub mod Storage
pub mod Calls
pub mod Worker
