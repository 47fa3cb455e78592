-- ===== src/Memory/Leases.antt =====
-- The instances and the lease index of crates/sdkwork-discovery-storage-memory/src/registry.rs agree.
pub mod Writes
pub mod Steps
pub mod Runs
