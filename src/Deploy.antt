-- ===== src/Deploy.antt =====
-- utils/deploys/index.ts: the classes that deploy the contracts, one child module per class, all with
-- the same signer.
pub mod Chain
pub mod Accepted
pub mod Cases
pub mod Core
pub mod Modules
pub mod Adapters
pub mod Libraries
pub mod Oracles
pub mod Product
pub mod Viewers
pub mod Mocks
pub mod External
