-- ===== src/Tests.antt =====
-- Concrete inputs for the theorems of the other modules.
mod Data
mod Registry
mod Config
mod Contract
mod Rpc
mod Core
mod Actor
mod Token
mod Service
