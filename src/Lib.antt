-- ===== src/Lib.antt =====
-- A model of the TypeScript tooling of Set Protocol v2: the arithmetic that the tests of the
-- contracts compare the chain's answers with, and the utilities around it.
--
-- The parts, and where each is modelled:
--   utils/common/mathUtils.ts               PreciseMath   fixed-point arithmetic at 10^18
--   utils/common/navIssuanceModuleUtils.ts  NavIssuance   issuance at net asset value
--   utils/common/feeModuleUtils.ts          StreamingFee  streaming fees
--   utils/common/uniswapUtils.ts            UniswapMath   liquidity and rebalancing
--   utils/common/perpV2Utils.ts             Perp          perpetual positions: transfers, funding
--   utils/fixtures/perpV2Fixture.ts         PerpSystem    the deployment, pools and liquidity
--   utils/fixtures/perpV2Fixture.ts         Perp.Fixture  spot prices, quotes and leverage
--   utils/common/blockchainUtils.ts         Sandbox       snapshots of the test node
--   utils/test/testingUtils.ts              Sandbox       (Hooks, Suites) cacheBeforeEach
--   utils/common/unitsUtils.ts              Units         amounts of tokens, at whole numbers
--   utils/deploys/*.ts                      Deploy        the transactions that deploy contracts
--   utils/fixtures/systemFixture.ts         System        the core system, deployed and handed over
--   contracts/protocol/Controller.sol       System        (Controller) the registry of the system
--   contracts/lib/AddressArrayUtils.sol     System        (Controller.Arrays) `remove`
--   utils/fixtures/systemFixtureDeploy.ts   System        (Live) the system on a live network
--   utils/fixtures/systemFixtureDeployReduced.ts  System  (Live) the same with mocks of tokens
--   utils/fixtures/compoundFixture.ts       Fixtures      (Compound) Compound and new markets
--   utils/fixtures/aaveV2Fixture.ts         Fixtures      (Aave, AaveSystem) Aave V2
--   utils/fixtures/uniswapFixture.ts        Fixtures      (Pools) Uniswap V2
--   utils/fixtures/kyberV3DMMFixture.ts     Fixtures      (Pools) Kyber DMM
--   utils/fixtures/kyberV3DMMFixtureDeploy.ts  Fixtures   (KyberDeploy) the same for a deployment
--   utils/fixtures/uniswapV3Fixture.ts      Fixtures      (UniswapV3) pools and liquidity
--   utils/fixtures/balancerFixture.ts       Fixtures      (Balancer) pools and their registry
--   utils/fixtures/yearnFixture.ts          Fixtures      (Vaults) a vault with a strategy
--   utils/fixtures/curveFixture.ts          Fixtures      (Vaults) a stable pool and gauges
--   utils/common/adapterUtils.ts            AdapterData   words of adapter data
--   utils/tasks/artifactUtils.ts            Artifacts     gas fields of ABIs
--   utils/fixtures/uniswapFixture.ts        TokenOrder    the order of two tokens (also perpV2Fixture)
--   utils/common/protocolUtils.ts           Protocol      created SetTokens, positions, link ids
-- System, PerpSystem and Fixtures use Deploy and Units. Of the others, those with arithmetic on
-- amounts call PreciseMath; UniswapMath and NavIssuance read contracts, Perp reads the fixture's
-- deployment.
--
-- How the code corresponds to the model. A function of the source is a definition of the same
-- name in snake case. What throws, or rejects a promise, is a value of `Result` (Base/Errors). A
-- `BigNumber` is an integer over native numbers (Base/Int). The operations of ethers are the
-- fields of the record `BigNumber` (Ethers) with their documented laws: division rounds towards
-- zero and throws on a zero divisor. What is converted from a JavaScript number is a value of
-- `Numeric`, and the conversion throws unless it is a whole number below 2^53 - 1 in size. An
-- instance of a contract is a record of views (Contracts, Perp/Views), one for each view that is
-- called, at the moment of the call. A loop is a recursion on the list it runs over, from what is
-- accumulated already. Strings are lists of code units (Js). A function that sends transactions
-- is an `Action` (Deploy/Chain): it takes the signer's nonce and log of transactions, and yields
-- a value with the new ones, or throws. Which transactions go through, and the address of the
-- contract that is created at a nonce, are the record `Network`. The operators `<` and `==` on
-- BigNumber objects are what JavaScript makes of them: a comparison of decimal notations and of
-- identities.
--
-- Fuel: two loops have fuel, their first argument, and yield `some` when they end and `none` when
-- the fuel was too small. For the loop of `sqrt` (UniswapMath), two more than the absolute value
-- of the argument is enough. The loop of `_token0Fixture` (PerpSystem) deploys tokens until the
-- network gives one an address below a given one: any number of rounds that contains such an
-- address is enough, and nothing in the code bounds it.
--
-- The test node of Sandbox is a record `Node` of operations on a state, with the documented laws
-- of `evm_snapshot`, `evm_revert` and `evm_mine`; a run of nested suites is a step relation.
--
-- Not modelled: the governor Bravo of compoundFixture.ts, whose transactions carry encoded calls
-- and depend on the clock of the node; the other Solidity contracts, the subgraph, the tables of
-- addresses on other networks, the configuration of hardhat, and the generated classes of the
-- contracts.
pub mod AdapterData
pub mod Artifacts
pub mod Base
pub mod Contracts
pub mod Deploy
pub mod Ethers
pub mod Fixtures
pub mod Js
pub mod NavIssuance
pub mod Perp
pub mod PerpSystem
pub mod PreciseMath
pub mod Protocol
pub mod Sandbox
pub mod StreamingFee
pub mod System
pub mod TokenOrder
pub mod UniswapMath
pub mod Units
