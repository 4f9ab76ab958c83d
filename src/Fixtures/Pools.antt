-- ===== src/Fixtures/Pools.antt =====
-- utils/fixtures/uniswapFixture.ts and utils/fixtures/kyberV3DMMFixture.ts: pools that a factory creates
-- and lists.
use set_protocol_v.Base.{ℕ, ◌+◌, ◌*◌, [], ◌∷◌, none, some, Result}
use set_protocol_v.Base.Int.{ℤ, pos, ◌-ℤ◌}
use set_protocol_v.Units.{ether}
use set_protocol_v.Contracts.{Address}
use set_protocol_v.Deploy.Chain.{
  Network, Instance, World, Action, address, number, pure, attach, lift, ◌>>=◌, ◌>>◌, invoke,
  invoke_as, ask, ask_number,
}
use set_protocol_v.Deploy.Mocks.Integration.{deploy_token_mock}
use set_protocol_v.Deploy.External.Exchange.{
  deploy_uniswap_v2_factory, deploy_uniswap_v2_router02, deploy_uni, deploy_uniswap_timelock,
  deploy_uniswap_governor_alpha, deploy_staking_rewards, deploy_dmm_factory, deploy_dmm_router02,
}

-- The fields of `UniswapFixture` that `initialize` sets; each pool of a pair with its rewards.
pub record UniswapFixture : Type 0 where
  pub factory : Instance
  pub router : Instance
  pub uni : Instance
  pub uniswap_timelock : Instance
  pub uniswap_governor_alpha : Instance
  pub weth_dai : Instance × Instance
  pub weth_wbtc : Instance × Instance
  pub uni_weth_pool : Instance

-- The fields of `KyberV3DMMFixture`.
pub record KyberFixture : Type 0 where
  pub dmm_factory : Instance
  pub dmm_router : Instance
  pub knc : Instance
  pub knc_weth_pool : Instance
  pub weth_dai_pool : Instance
  pub weth_wbtc_pool : Instance

module _ (net : Network) (owner_address : Address) where
  -- `createNewPair`
  unfoldable pub create_new_pair : Instance → Address → Address → Action Instance
  unfolding ◌-ℤ◌
  create_new_pair factory token_one token_two = do
    invoke net owner_address factory "createPair" (address token_one ∷ address token_two ∷ [])
        (pos 0)
    pairs ← ask_number net owner_address factory "allPairsLength" []
    pool_address ← ask net owner_address factory "allPairs" (number (pos pairs -ℤ pos 1) ∷ [])
    pure (attach "UniswapV2Pair" pool_address)

  -- `createNewStakingPair`; `owner` is the account that `initialize` was given.
  unfoldable pub create_new_staking_pair :
      Address → Instance → Instance → Address → Address → Action (Instance × Instance)
  unfolding create_new_pair
  create_new_staking_pair owner factory uni token_one token_two = do
    pool ← create_new_pair factory token_one token_two
    staking ← deploy_staking_rewards net owner_address owner uni.address pool.address
    invoke_as net owner_address owner uni "transfer"
        (address staking.address ∷ number (ether 5_000_000) ∷ [])
    invoke_as net owner_address owner staking "notifyRewardAmount" (number (ether 5_000_000) ∷ [])
    pure (pool, staking)

  -- `initialize` of `UniswapFixture`; `timestamp` is that of the latest block.
  unfoldable initialize_uniswap :
      (World → Result ℕ) → Address → Address → Address → Address → Action UniswapFixture
  unfolding create_new_staking_pair
  initialize_uniswap timestamp owner weth wbtc dai = do
    factory ← deploy_uniswap_v2_factory net owner_address owner
    router ← deploy_uniswap_v2_router02 net owner_address factory.address weth
    last ← (λ w. lift (timestamp w) w)
    uni ← deploy_uni net owner_address owner owner (pos (last + 2))
    uniswap_timelock ← deploy_uniswap_timelock net owner_address owner (pos (60 * 60 * 24 * 2))
    uniswap_governor_alpha ←
        deploy_uniswap_governor_alpha net owner_address uniswap_timelock.address uni.address
    weth_dai ← create_new_staking_pair owner factory uni weth dai
    weth_wbtc ← create_new_staking_pair owner factory uni weth wbtc
    uni_weth_pool ← create_new_pair factory weth uni.address
    pure (record {
      factory = factory;
      router = router;
      uni = uni;
      uniswap_timelock = uniswap_timelock;
      uniswap_governor_alpha = uniswap_governor_alpha;
      weth_dai = weth_dai;
      weth_wbtc = weth_wbtc;
      uni_weth_pool = uni_weth_pool;
    })

  -- `createNewPool`
  unfoldable pub create_new_dmm_pool : Instance → Address → Address → ℤ → Action Instance
  unfolding ◌-ℤ◌
  create_new_dmm_pool dmm_factory token_a token_b amp_bps = do
    invoke net owner_address dmm_factory "createPool"
        (address token_a ∷ address token_b ∷ number amp_bps ∷ []) (pos 0)
    pools ← ask_number net owner_address dmm_factory "allPoolsLength" []
    pool_address ← ask net owner_address dmm_factory "allPools" (number (pos pools -ℤ pos 1) ∷ [])
    pure (attach "DMMPool" pool_address)

  -- `initialize` of `KyberV3DMMFixture`
  unfoldable initialize_kyber : Address → Address → Address → Address → Action KyberFixture
  unfolding create_new_dmm_pool
  initialize_kyber owner weth wbtc dai = do
    dmm_factory ← deploy_dmm_factory net owner_address owner
    dmm_router ← deploy_dmm_router02 net owner_address dmm_factory.address weth
    knc ← deploy_token_mock net owner_address owner (some (ether 100_000)) (some (pos 18)) none none
    knc_weth_pool ← create_new_dmm_pool dmm_factory weth knc.address (pos 19_000)
    weth_dai_pool ← create_new_dmm_pool dmm_factory weth dai (pos 10_000)
    weth_wbtc_pool ← create_new_dmm_pool dmm_factory weth wbtc (pos 15_000)
    pure (record {
      dmm_factory = dmm_factory;
      dmm_router = dmm_router;
      knc = knc;
      knc_weth_pool = knc_weth_pool;
      weth_dai_pool = weth_dai_pool;
      weth_wbtc_pool = weth_wbtc_pool;
    })
