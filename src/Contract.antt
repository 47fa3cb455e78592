-- ===== src/Contract.antt =====
-- crates/sdkwork-discovery-contract: the types that every part of the service shares.
pub mod Unordered
pub mod Shuffle
pub mod Error
pub mod Health
pub mod Registry
pub mod Config
pub mod Event
pub mod Pagination
pub mod Discover
pub mod Context
