-- ===== src/Core.antt =====
-- crates/sdkwork-discovery-core and crates/sdkwork-discovery-storage-contract.
pub mod Isolation
pub mod Crossing
pub mod Policy
pub mod Store
pub mod Plane
