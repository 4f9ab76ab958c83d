-- ===== src/Fixtures.antt =====
-- The fixtures of other protocols, utils/fixtures: the transactions that deploy them.
pub mod Compound
pub mod UniswapV3
pub mod Pools
pub mod Vaults
pub mod Aave
pub mod AaveSystem
pub mod Balancer
pub mod KyberDeploy
mod Tests
