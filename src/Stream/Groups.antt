-- ===== src/Stream/Groups.antt =====
-- internal/stream/stream.go: the groups of consumers, and the partitions that each consumer has.
pub mod Defs
pub mod Consume
pub mod Shares
pub mod Membership
mod Fetching
pub mod Consuming
pub mod Joining
