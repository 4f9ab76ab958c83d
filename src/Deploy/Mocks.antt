-- ===== src/Deploy/Mocks.antt =====
-- utils/deploys/deployMocks.ts: the mocks.
pub mod Protocol
pub mod Integration
