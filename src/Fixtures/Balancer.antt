-- ===== src/Fixtures/Balancer.antt =====
-- utils/fixtures/balancerFixture.ts: pools of two tokens, found in the logs of their creation, and the
-- registry that the exchange uses.
use set_protocol_v.Base.{
  ℕ, ◌*◌, ◌^◌, Bool, true, false, ◌||◌, if◌then◌else◌, List, [], ◌∷◌, Option, none, some, get_elem?,
  Result, ok, err, type_error, no_logs,
}
use set_protocol_v.Base.Int.{ℤ, pos}
use set_protocol_v.Js.{str_eq, codes}
use set_protocol_v.Units.{ether, bitcoin}
use set_protocol_v.Contracts.{Address}
use set_protocol_v.Protocol.{slice_from}
use set_protocol_v.Deploy.Chain.{
  Network, Instance, World, Action, address, addresses, number, flag, pure, attach, lift, ◌>>=◌,
  ◌>>◌, invoke,
}
use set_protocol_v.Deploy.External.Exchange.{
  deploy_b__factory, deploy_b_registry, deploy_exchange_proxy,
}

-- The topics of a log.
abbrev Log : Type 0
Log = List (List ℕ)

-- `log.topics.includes(topic)`
abbrev has_topic : List ℕ → Log → Bool
has_topic topic [] = false
has_topic topic (other ∷ topics) = str_eq other topic || has_topic topic topics

abbrev filter_topic : List ℕ → List Log → List Log
filter_topic topic [] = []
filter_topic topic (log ∷ logs) =
    let rest = filter_topic topic logs in if has_topic topic log then log ∷ rest else rest

-- `getPoolAddressFromTransaction` on the logs of the receipt, `none` where it has none; a log or a
-- topic that is missing is undefined, which has no properties.
unfoldable pub get_pool_address_from_transaction : Option (List Log) → Result Address
get_pool_address_from_transaction none = err no_logs
get_pool_address_from_transaction (some logs) =
    elim (filter_topic (codes "0x8ccec77b0cb63ac2cafd0f5de8cdfadab91ce656d262240ba8a6343bccc5f945")
      logs) [
        | [] ↦ err type_error
        | first ∷ _ ↦ elim (get_elem? first 2) [
          | none ↦ err type_error
          | some topic ↦ ok (b'0' ∷ b'x' ∷ slice_from 26 topic)
        ]
      ]

-- The fields that `initialize` sets.
pub record BalancerFixture : Type 0 where
  pub factory : Instance
  pub weth_dai_pool : Instance
  pub weth_wbtc_pool : Instance
  pub wbtc_dai_pool : Instance
  pub registry : Instance
  pub exchange : Instance

-- `receipt_logs` are the logs of the receipt of the last transaction.
module _ (net : Network) (owner_address : Address) (receipt_logs : World → Option (List Log)) where
  unfoldable create_new_balancer_pool : Instance → Instance → Instance → ℤ → ℤ → Action Instance
  unfolding get_pool_address_from_transaction
  create_new_balancer_pool factory token_one token_two token_one_balance token_two_balance = do
    invoke net owner_address factory "newBPool" [] (pos 0)
    pool_address ← (λ w. lift (get_pool_address_from_transaction (receipt_logs w)) w)
    let pool = attach "BPool" pool_address
    invoke net owner_address token_one "approve"
        (address pool_address ∷ number token_one_balance ∷ []) (pos 0)
    invoke net owner_address pool "bind"
        (address token_one.address ∷ number token_one_balance ∷ number (ether 5) ∷ []) (pos 0)
    invoke net owner_address token_two "approve"
        (address pool_address ∷ number token_two_balance ∷ []) (pos 0)
    invoke net owner_address pool "bind"
        (address token_two.address ∷ number token_two_balance ∷ number (ether 5) ∷ []) (pos 0)
    invoke net owner_address pool "setPublicSwap" (flag true ∷ []) (pos 0)
    pure pool

  -- `initialize`; `ether(391.3043)` is written out.
  unfoldable initialize_balancer : Instance → Instance → Instance → Action BalancerFixture
  unfolding create_new_balancer_pool bitcoin
  initialize_balancer weth wbtc dai = do
    factory ← deploy_b__factory net owner_address
    weth_dai_pool ← create_new_balancer_pool factory weth dai (ether 400) (ether 92_000)
    ten_bitcoin ← lift (bitcoin 10)
    weth_wbtc_pool ←
        create_new_balancer_pool factory wbtc weth (pos (3_913_043 * 10 ^ 14)) ten_bitcoin
    wbtc_dai_pool ← create_new_balancer_pool factory wbtc dai ten_bitcoin (ether 90_000)
    registry ← deploy_b_registry net owner_address factory.address
    exchange ← deploy_exchange_proxy net owner_address weth.address
    invoke net owner_address registry "addPoolPair"
        (address weth_dai_pool.address ∷ address weth.address ∷ address dai.address ∷ []) (pos 0)
    invoke net owner_address registry "addPoolPair"
        (address weth_wbtc_pool.address ∷ address weth.address ∷ address wbtc.address ∷ []) (pos 0)
    invoke net owner_address registry "addPoolPair"
        (address wbtc_dai_pool.address ∷ address wbtc.address ∷ address dai.address ∷ []) (pos 0)
    invoke net owner_address registry "sortPools"
        (addresses (weth.address ∷ dai.address ∷ []) ∷ number (pos 1) ∷ []) (pos 0)
    invoke net owner_address registry "sortPools"
        (addresses (wbtc.address ∷ dai.address ∷ []) ∷ number (pos 1) ∷ []) (pos 0)
    invoke net owner_address registry "sortPools"
        (addresses (weth.address ∷ wbtc.address ∷ []) ∷ number (pos 1) ∷ []) (pos 0)
    invoke net owner_address exchange "setRegistry" (address registry.address ∷ []) (pos 0)
    pure (record {
      factory = factory;
      weth_dai_pool = weth_dai_pool;
      weth_wbtc_pool = weth_wbtc_pool;
      wbtc_dai_pool = wbtc_dai_pool;
      registry = registry;
      exchange = exchange;
    })
