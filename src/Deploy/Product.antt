-- ===== src/Deploy/Product.antt =====
-- utils/deploys/deployProduct.ts: the product contracts.
use set_protocol_v.Base.{List, [], ◌∷◌}
use set_protocol_v.Base.Int.{ℤ}
use set_protocol_v.Contracts.{Address}
use set_protocol_v.Deploy.Chain.{
  Network, Instance, Action, address, addresses, numbers, deploy, attach,
}

unfoldable get_asset_limit_hook : Address → Instance
get_asset_limit_hook asset_limit_hook_address = attach "AssetLimitHook" asset_limit_hook_address

module _ (net : Network) (signer : Address) where
  unfoldable deploy_asset_limit_hook : List Address → List ℤ → Action Instance
  deploy_asset_limit_hook assets limits =
      deploy net signer "AssetLimitHook" [] (addresses assets ∷ numbers limits ∷ [])

  unfoldable deploy_amm_splitter : Address → Address → Address → Address → Action Instance
  deploy_amm_splitter uni_router sushi_router uni_factory sushi_factory =
      deploy net signer "AMMSplitter" [] (
        address uni_router
        ∷ address sushi_router
        ∷ address uni_factory
        ∷ address sushi_factory
        ∷ [])
