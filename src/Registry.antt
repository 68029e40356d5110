-- ===== src/Registry.antt =====
-- registry.go: the connections of a handler, and the indexes of them by user and by group.
pub mod ShardMap
pub mod Types
pub mod Locks
pub mod Index
pub mod Members
pub mod IndexLaws
pub mod Consistent
pub mod Preserved
pub mod Snapshot
pub mod Expiry
pub mod Chosen
pub mod Snapshots
pub mod ById
pub mod Counts
pub mod Expired
pub mod Removed
pub mod Reachable
pub mod Races
pub mod Conns
pub mod Entries
