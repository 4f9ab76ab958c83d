-- ===== src/PerpSystem/Deployment.antt =====
-- utils/fixtures/perpV2Fixture.ts: `initialize`, which deploys the contracts of Perpetual Protocol and
-- tells them of one another, and `deposit`.
use set_protocol_v.Base.{ℕ, ◌*◌, ◌^◌, ◌-◌, [], ◌∷◌, Option, none, some}
use set_protocol_v.Base.Int.{ℤ, pos}
use set_protocol_v.Units.{ether}
use set_protocol_v.Contracts.{Address}
use set_protocol_v.Deploy.Chain.{
  Network, Instance, Action, address, number, pure, ◌>>=◌, ◌>>◌, invoke, invoke_as, invoke_detached,
  ask, ask_number,
}
use set_protocol_v.Deploy.Mocks.Integration.{deploy_token_mock}
use set_protocol_v.Deploy.External.Exchange.{
  deploy_uniswap_v3_factory, get_uniswap_v3_pool_instance, deploy_perp_v2_clearing_house_config,
  deploy_perp_v2_market_registry, deploy_perp_v2_order_book, deploy_perp_v2_insurance_fund,
  deploy_perp_v2_account_balance, deploy_perp_v2_exchange, deploy_perp_v2_vault,
  deploy_perp_v2_clearing_house, deploy_perp_v2_quoter,
}
use set_protocol_v.PerpSystem.Tokens.{BaseTokenFixture, TokensFixture, choose_tokens}

-- `_feeTier`
abbrev pub fee_tier : ℤ
fee_tier = pos 10_000

-- The contracts of the protocol that `initialize` keeps.
pub record PerpContracts : Type 0 where
  pub uni_v3_factory : Instance
  pub clearing_house_config : Instance
  pub market_registry : Instance
  pub order_book : Instance
  pub insurance_fund : Instance
  pub account_balance : Instance
  pub exchange : Instance
  pub vault : Instance

-- The fields that `initialize` sets; `_priceFeeds` and `_pools` hold the feeds and the pools of the
-- two base tokens.
pub record PerpFixture : Type 0 where
  pub usdc : Instance
  pub tokens : TokensFixture
  pub second : BaseTokenFixture
  pub contracts : PerpContracts
  pub v_eth_pool : Instance
  pub v_btc_pool : Instance
  pub clearing_house : Instance
  pub quoter : Instance

module _ (net : Network) (owner_address : Address) where
  -- `deposit`; `parseUnits` of a whole number multiplies by the power of ten.
  unfoldable pub deposit : Instance → Address → ℕ → Instance → Action (Unit {0})
  deposit vault sender amount token = do
    decimals ← ask_number net owner_address token "decimals" []
    let parsed_amount = pos (amount * 10 ^ decimals)
    invoke_as net owner_address sender token "approve"
        (address vault.address ∷ number parsed_amount ∷ [])
    invoke_as net owner_address sender vault "deposit"
        (address token.address ∷ number parsed_amount ∷ [])

  -- The contracts from the pools' factory to the vault.
  unfoldable pub deploy_contracts : Instance → Instance → Instance → Instance → Action PerpContracts
  deploy_contracts usdc v_eth v_btc v_quote = do
    factory ← deploy_uniswap_v3_factory net owner_address
    config ← deploy_perp_v2_clearing_house_config net owner_address
    invoke net owner_address config "initialize" [] (pos 0)
    invoke net owner_address factory "createPool"
        (address v_eth.address ∷ address v_quote.address ∷ number fee_tier ∷ []) (pos 0)
    invoke net owner_address factory "createPool"
        (address v_btc.address ∷ address v_quote.address ∷ number fee_tier ∷ []) (pos 0)
    registry ← deploy_perp_v2_market_registry net owner_address
    invoke net owner_address registry "initialize"
        (address factory.address ∷ address v_quote.address ∷ []) (pos 0)
    order_book ← deploy_perp_v2_order_book net owner_address
    invoke net owner_address order_book "initialize" (address registry.address ∷ []) (pos 0)
    insurance_fund ← deploy_perp_v2_insurance_fund net owner_address
    invoke net owner_address insurance_fund "initialize" (address usdc.address ∷ []) (pos 0)
    account_balance ← deploy_perp_v2_account_balance net owner_address
    exchange ← deploy_perp_v2_exchange net owner_address
    invoke net owner_address exchange "initialize"
        (address registry.address ∷ address order_book.address ∷ address config.address ∷ [])
        (pos 0)
    invoke_detached net owner_address exchange "setAccountBalance"
        (address account_balance.address ∷ [])
    invoke net owner_address order_book "setExchange" (address exchange.address ∷ []) (pos 0)
    invoke net owner_address account_balance "initialize"
        (address config.address ∷ address order_book.address ∷ []) (pos 0)
    vault ← deploy_perp_v2_vault net owner_address
    invoke net owner_address vault "initialize"
        (address insurance_fund.address
          ∷ address config.address
          ∷ address account_balance.address
          ∷ address exchange.address
          ∷ [])
        (pos 0)
    invoke net owner_address insurance_fund "setBorrower" (address vault.address ∷ []) (pos 0)
    invoke net owner_address account_balance "setVault" (address vault.address ∷ []) (pos 0)
    pure (record {
      uni_v3_factory = factory;
      clearing_house_config = config;
      market_registry = registry;
      order_book = order_book;
      insurance_fund = insurance_fund;
      account_balance = account_balance;
      exchange = exchange;
      vault = vault;
    })

  -- The clearing house, and every contract that has to know of it.
  unfoldable pub deploy_clearing_house :
      PerpContracts → Instance → Instance → Instance → Action (Instance × Instance)
  deploy_clearing_house c v_eth v_btc v_quote = do
    clearing_house ← deploy_perp_v2_clearing_house net owner_address
    invoke net owner_address clearing_house "initialize"
        (address c.clearing_house_config.address
          ∷ address c.vault.address
          ∷ address v_quote.address
          ∷ address c.uni_v3_factory.address
          ∷ address c.exchange.address
          ∷ address c.account_balance.address
          ∷ address c.insurance_fund.address
          ∷ [])
        (pos 0)
    invoke net owner_address c.clearing_house_config "setSettlementTokenBalanceCap"
        (number (pos (2 ^ 256 - 1)) ∷ []) (pos 0)
    quoter ← deploy_perp_v2_quoter net owner_address c.market_registry.address
    let told = address clearing_house.address ∷ []
    invoke net owner_address v_quote "mintMaximumTo" told (pos 0)
    invoke net owner_address v_eth "mintMaximumTo" told (pos 0)
    invoke net owner_address v_btc "mintMaximumTo" told (pos 0)
    invoke net owner_address v_quote "addWhitelist" told (pos 0)
    invoke net owner_address v_eth "addWhitelist" told (pos 0)
    invoke net owner_address v_btc "addWhitelist" told (pos 0)
    invoke net owner_address c.market_registry "setClearingHouse" told (pos 0)
    invoke net owner_address c.order_book "setClearingHouse" told (pos 0)
    invoke net owner_address c.exchange "setClearingHouse" told (pos 0)
    invoke net owner_address c.account_balance "setClearingHouse" told (pos 0)
    invoke net owner_address c.vault "setClearingHouse" told (pos 0)
    pure (clearing_house, quoter)

  -- The pools that the factory has created, and the tokens that may be sent to them.
  unfoldable pub whitelist_pools :
      PerpContracts → Instance → Instance → Instance → Action (Instance × Instance)
  whitelist_pools c v_eth v_btc v_quote = do
    pool_a ←
        ask net owner_address c.uni_v3_factory "getPool"
          (address v_eth.address ∷ address v_quote.address ∷ number fee_tier ∷ [])
    pool_b ←
        ask net owner_address c.uni_v3_factory "getPool"
          (address v_btc.address ∷ address v_quote.address ∷ number fee_tier ∷ [])
    invoke net owner_address v_eth "addWhitelist" (address pool_a ∷ []) (pos 0)
    invoke net owner_address v_btc "addWhitelist" (address pool_b ∷ []) (pos 0)
    invoke net owner_address v_quote "addWhitelist" (address pool_a ∷ []) (pos 0)
    invoke net owner_address v_quote "addWhitelist" (address pool_b ∷ []) (pos 0)
    pure (get_uniswap_v3_pool_instance pool_a, get_uniswap_v3_pool_instance pool_b)

  -- `initialize` once the tokens are chosen; `utils.parseUnits("1000000", 6)` is 10^12.
  unfoldable pub initialize_markets :
      Instance → TokensFixture → BaseTokenFixture → Address → Address → Action PerpFixture
  unfolding deploy_contracts deploy_clearing_house whitelist_pools deposit
  initialize_markets usdc tokens second maker other_trader = do
    let v_eth = tokens.token_zero
    let v_btc = second.base_token
    let v_quote = tokens.token_one
    contracts ← deploy_contracts usdc v_eth v_btc v_quote
    pools ← whitelist_pools contracts v_eth v_btc v_quote
    houses ← deploy_clearing_house contracts v_eth v_btc v_quote
    let collateral = number (pos 1_000_000_000_000)
    invoke net owner_address usdc "mint" (address maker ∷ collateral ∷ []) (pos 0)
    deposit contracts.vault maker 1_000_000 usdc
    invoke net owner_address usdc "mint" (address other_trader ∷ collateral ∷ []) (pos 0)
    deposit contracts.vault other_trader 1_000_000 usdc
    pure (record {
      usdc = usdc;
      tokens = tokens;
      second = second;
      contracts = contracts;
      v_eth_pool = pools.0;
      v_btc_pool = pools.1;
      clearing_house = houses.0;
      quoter = houses.1;
    })

  -- `initialize`, with fuel for the loop that looks for a token; `none` is fuel that ran out.
  unfoldable pub initialize_perp : ℕ → Address → Address → Action (Option PerpFixture)
  unfolding initialize_markets
  initialize_perp fuel maker other_trader = do
    usdc ←
        deploy_token_mock net owner_address owner_address (some (ether 100_000_000_000_000))
          (some (pos 6)) none none
    chosen ← choose_tokens net owner_address fuel
    elim chosen [
      | none ↦ pure none
      | some (tokens, second) ↦ (do
        fixture ← initialize_markets usdc tokens second maker other_trader
        pure (some fixture))
    ]
