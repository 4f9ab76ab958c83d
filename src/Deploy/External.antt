-- ===== src/Deploy/External.antt =====
-- utils/deploys/deployExternal.ts: the contracts of other protocols.
pub mod Lending
pub mod Exchange
