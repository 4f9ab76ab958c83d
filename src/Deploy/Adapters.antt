-- ===== src/Deploy/Adapters.antt =====
-- utils/deploys/deployAdapters.ts: the integration adapters.
use set_protocol_v.Base.{String, List, [], ◌∷◌}
use set_protocol_v.Base.Int.{ℤ}
use set_protocol_v.Contracts.{Address}
use set_protocol_v.Deploy.Chain.{
  Network, Instance, Action, address, addresses, number, text, deploy, attach,
}

unfoldable get_uniswap_pair_price_adapter : Address → Instance
get_uniswap_pair_price_adapter uniswap_adapter_address =
    attach "UniswapPairPriceAdapter" uniswap_adapter_address

module _ (net : Network) (signer : Address) where
  unfoldable deploy_kyber_exchange_adapter : Address → Action Instance
  deploy_kyber_exchange_adapter kyber_network_proxy =
      deploy net signer "KyberExchangeAdapter" [] (address kyber_network_proxy ∷ [])

  unfoldable deploy_one_inch_exchange_adapter : Address → Address → String → Action Instance
  deploy_one_inch_exchange_adapter approve_address exchange_address swap_function_signature =
      deploy net signer "OneInchExchangeAdapter" []
        (address approve_address ∷ address exchange_address ∷ text swap_function_signature ∷ [])

  unfoldable deploy_uniswap_v2_amm_adapter : Address → Action Instance
  deploy_uniswap_v2_amm_adapter uniswap_v2_router =
      deploy net signer "UniswapV2AmmAdapter" [] (address uniswap_v2_router ∷ [])

  unfoldable deploy_uniswap_v2_exchange_adapter : Address → Action Instance
  deploy_uniswap_v2_exchange_adapter uniswap_v2_router =
      deploy net signer "UniswapV2ExchangeAdapter" [] (address uniswap_v2_router ∷ [])

  unfoldable deploy_uniswap_v2_transfer_fee_exchange_adapter : Address → Action Instance
  deploy_uniswap_v2_transfer_fee_exchange_adapter uniswap_v2_router =
      deploy net signer "UniswapV2TransferFeeExchangeAdapter" [] (address uniswap_v2_router ∷ [])

  unfoldable deploy_uniswap_v2_exchange_adapter_v2 : Address → Action Instance
  deploy_uniswap_v2_exchange_adapter_v2 uniswap_v2_router =
      deploy net signer "UniswapV2ExchangeAdapterV2" [] (address uniswap_v2_router ∷ [])

  unfoldable deploy_uniswap_v2_index_exchange_adapter : Address → Action Instance
  deploy_uniswap_v2_index_exchange_adapter uniswap_v2_router =
      deploy net signer "UniswapV2IndexExchangeAdapter" [] (address uniswap_v2_router ∷ [])

  unfoldable deploy_aave_governance_v2_adapter : Address → Address → Action Instance
  deploy_aave_governance_v2_adapter aave_governance_v2 aave_token =
      deploy net signer "AaveGovernanceV2Adapter" []
        (address aave_governance_v2 ∷ address aave_token ∷ [])

  unfoldable deploy_comp_claim_adapter : Address → Action Instance
  deploy_comp_claim_adapter comptroller_address =
      deploy net signer "CompClaimAdapter" [] (address comptroller_address ∷ [])

  unfoldable deploy_balancer_v1_index_exchange_adapter : Address → Action Instance
  deploy_balancer_v1_index_exchange_adapter balancer_proxy =
      deploy net signer "BalancerV1IndexExchangeAdapter" [] (address balancer_proxy ∷ [])

  unfoldable deploy_compound_like_governance_adapter : Address → Address → Action Instance
  deploy_compound_like_governance_adapter governance_alpha governance_token =
      deploy net signer "CompoundLikeGovernanceAdapter" []
        (address governance_alpha ∷ address governance_token ∷ [])

  unfoldable deploy_compound_bravo_governance_adapter : Address → Address → Action Instance
  deploy_compound_bravo_governance_adapter governor_bravo governance_token =
      deploy net signer "CompoundBravoGovernanceAdapter" []
        (address governor_bravo ∷ address governance_token ∷ [])

  unfoldable deploy_curve_staking_adapter : Address → Action Instance
  deploy_curve_staking_adapter gauge_controller =
      deploy net signer "CurveStakingAdapter" [] (address gauge_controller ∷ [])

  unfoldable deploy_rgt_migration_wrap_adapter : Address → Action Instance
  deploy_rgt_migration_wrap_adapter peg_exchanger =
      deploy net signer "RgtMigrationWrapAdapter" [] (address peg_exchanger ∷ [])

  unfoldable deploy_uniswap_pair_price_adapter : Address → Address → List Address → Action Instance
  deploy_uniswap_pair_price_adapter controller uniswap_factory uniswap_pools =
      deploy net signer "UniswapPairPriceAdapter" []
        (address controller ∷ address uniswap_factory ∷ addresses uniswap_pools ∷ [])

  unfoldable deploy_uniswap_v3_index_exchange_adapter : Address → Action Instance
  deploy_uniswap_v3_index_exchange_adapter router =
      deploy net signer "UniswapV3IndexExchangeAdapter" [] (address router ∷ [])

  unfoldable deploy_zero_ex_api_adapter : Address → Address → Action Instance
  deploy_zero_ex_api_adapter zero_ex_address weth_address =
      deploy net signer "ZeroExApiAdapter" [] (address zero_ex_address ∷ address weth_address ∷ [])

  unfoldable deploy_snapshot_governance_adapter : Address → Action Instance
  deploy_snapshot_governance_adapter delegate_registry =
      deploy net signer "SnapshotGovernanceAdapter" [] (address delegate_registry ∷ [])

  unfoldable deploy_synthetix_exchange_adapter : Address → Action Instance
  deploy_synthetix_exchange_adapter synthetix_exchanger_address =
      deploy net signer "SynthetixExchangeAdapter" [] (address synthetix_exchanger_address ∷ [])

  unfoldable deploy_uniswap_v3_exchange_adapter : Address → Action Instance
  deploy_uniswap_v3_exchange_adapter swap_router =
      deploy net signer "UniswapV3ExchangeAdapter" [] (address swap_router ∷ [])

  unfoldable deploy_uniswap_v3_exchange_adapter_v2 : Address → Action Instance
  deploy_uniswap_v3_exchange_adapter_v2 swap_router =
      deploy net signer "UniswapV3ExchangeAdapterV2" [] (address swap_router ∷ [])

  unfoldable deploy_kyber_v3_index_exchange_adapter : Address → Address → Action Instance
  deploy_kyber_v3_index_exchange_adapter dmm_router dmm_factory =
      deploy net signer "KyberV3IndexExchangeAdapter" []
        (address dmm_router ∷ address dmm_factory ∷ [])

  unfoldable deploy_compound_wrap_v2_adapter : String → Address → Action Instance
  deploy_compound_wrap_v2_adapter library_name library_address =
      deploy net signer "CompoundWrapV2Adapter" ((library_name, library_address) ∷ []) []

  unfoldable deploy_yearn_wrap_v2_adapter : Action Instance
  deploy_yearn_wrap_v2_adapter = deploy net signer "YearnWrapV2Adapter" [] []

  unfoldable deploy_aave_v2_wrap_v2_adapter : Address → Action Instance
  deploy_aave_v2_wrap_v2_adapter lending_pool =
      deploy net signer "AaveV2WrapV2Adapter" [] (address lending_pool ∷ [])

  unfoldable deploy_curve_exchange_adapter : Address → Address → ℤ → ℤ → Address → Action Instance
  deploy_curve_exchange_adapter token_a token_b token_a_index tokenb_b_index exchange =
      deploy net signer "CurveExchangeAdapter" [] (
        address token_a
        ∷ address token_b
        ∷ number token_a_index
        ∷ number tokenb_b_index
        ∷ address exchange
        ∷ [])

  unfoldable deploy_curve_st_eth_exchange_adapter : Address → Address → Address → Action Instance
  deploy_curve_st_eth_exchange_adapter weth steth exchange =
      deploy net signer "CurveStEthExchangeAdapter" []
        (address weth ∷ address steth ∷ address exchange ∷ [])
