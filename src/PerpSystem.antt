-- ===== src/PerpSystem.antt =====
-- utils/fixtures/perpV2Fixture.ts: the deployment of Perpetual Protocol V2.
pub mod Tokens
pub mod Deployment
pub mod Pools
pub mod Sorted
pub mod Ticks
mod Tests
