-- ===== src/System.antt =====
-- The system of core contracts: the fixture that deploys it (utils/fixtures/systemFixture.ts), and
-- the part of contracts/protocol/Controller.sol that the fixture hands the system over to.
pub mod Controller
pub mod Fixture
pub mod History
pub mod Handover
pub mod Live
pub mod Sets
pub mod Distinct
mod Tests
