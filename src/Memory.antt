-- ===== src/Memory.antt =====
-- crates/sdkwork-discovery-storage-memory: the in-memory store.
pub mod Effective
pub mod Snapshot
pub mod Store
pub mod Register
pub mod Lifecycle
pub mod Expire
pub mod Reads
pub mod Config
pub mod Watch
pub mod Call
pub mod Ids
pub mod Leases
pub mod Registration
pub mod Renewal
pub mod Freed
pub mod Removal
pub mod Evicting
pub mod Expiry
pub mod Collect
pub mod Replay
pub mod Rollback
pub mod Log
