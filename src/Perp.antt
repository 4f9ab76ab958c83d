-- ===== src/Perp.antt =====
-- Perpetual Protocol V2: the fixture's quotes (utils/fixtures/perpV2Fixture.ts) and the
-- expectations computed from them (utils/common/perpV2Utils.ts).
pub mod Views
pub mod Fixture
pub mod Expected
pub mod TransferIn
pub mod Funding
pub mod Leverage
pub mod Ratios
mod Tests
