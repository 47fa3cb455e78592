-- ===== src/Rpc.antt =====
-- crates/sdkwork-discovery-rpc: what protects the service, who may call it, and the runtime's actor.
pub mod Actor
pub mod Breaker
pub mod Codec
pub mod Gate
pub mod Resilience
pub mod Opening
pub mod Probing
pub mod Health
pub mod Keys
pub mod Token
pub mod Verified
pub mod Context
pub mod Correlation
pub mod Service
pub mod Stream
pub mod Tenancy
pub mod Callers
pub mod Status
pub mod Codes
pub mod Probes
pub mod Watch
pub mod Published
