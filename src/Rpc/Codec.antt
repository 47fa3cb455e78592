-- ===== src/Rpc/Codec.antt =====
-- crates/sdkwork-discovery-rpc/src/codec.rs: between the messages of the services and the contract.
pub mod Proto
pub mod Fields
pub mod Requests
pub mod Responses
pub mod RoundTrip
pub mod Validated
pub mod Admitted
