-- ===== src/Sandbox.antt =====
-- The sandbox of the tests: utils/common/blockchainUtils.ts, which asks the test node for snapshots,
-- and the hooks of utils/test/testingUtils.ts, which give each test the chain it expects.
pub mod Node
pub mod Blockchain
pub mod Hooks
pub mod Held
pub mod Suites
mod Tests
