-- ===== src/Deploy/Core.antt =====
-- utils/deploys/deployCoreContracts.ts: the core contracts.
use set_protocol_v.Base.{String, List, [], ◌∷◌}
use set_protocol_v.Base.Int.{ℤ}
use set_protocol_v.Contracts.{Address}
use set_protocol_v.Deploy.Chain.{
  Network, Instance, Action, address, addresses, numbers, text, deploy, attach,
}

unfoldable get_controller : Address → Instance
get_controller controller_address = attach "Controller" controller_address

unfoldable get_set_token_creator : Address → Instance
get_set_token_creator set_token_creator_address = attach "SetTokenCreator" set_token_creator_address

unfoldable get_set_token : Address → Instance
get_set_token set_token_address = attach "SetToken" set_token_address

unfoldable get_price_oracle : Address → Instance
get_price_oracle price_oracle_address = attach "PriceOracle" price_oracle_address

unfoldable get_integration_registry : Address → Instance
get_integration_registry integration_registry_address =
    attach "IntegrationRegistry" integration_registry_address

module _ (net : Network) (signer : Address) where
  unfoldable pub deploy_controller : Address → Action Instance
  deploy_controller fee_recipient = deploy net signer "Controller" [] (address fee_recipient ∷ [])

  unfoldable pub deploy_set_token_creator : Address → Action Instance
  deploy_set_token_creator controller =
      deploy net signer "SetTokenCreator" [] (address controller ∷ [])

  unfoldable pub deploy_set_token :
      List Address → List ℤ → List Address → Address → Address → String → String → Action Instance
  deploy_set_token components units modules controller manager name symbol =
      deploy net signer "SetToken" [] (
        addresses components
        ∷ numbers units
        ∷ addresses modules
        ∷ address controller
        ∷ address manager
        ∷ text name
        ∷ text symbol
        ∷ [])

  unfoldable pub deploy_price_oracle :
      Address
      → Address
      → List Address
      → List Address
      → List Address
      → List Address
      → Action Instance
  deploy_price_oracle controller master_quote_asset adapters asset_ones asset_twos oracles =
      deploy net signer "PriceOracle" [] (
        address controller
        ∷ address master_quote_asset
        ∷ addresses adapters
        ∷ addresses asset_ones
        ∷ addresses asset_twos
        ∷ addresses oracles
        ∷ [])

  unfoldable pub deploy_integration_registry : Address → Action Instance
  deploy_integration_registry controller =
      deploy net signer "IntegrationRegistry" [] (address controller ∷ [])

  unfoldable pub deploy_set_valuer : Address → Action Instance
  deploy_set_valuer controller = deploy net signer "SetValuer" [] (address controller ∷ [])
