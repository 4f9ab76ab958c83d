-- ===== src/Deploy/Libraries.antt =====
-- utils/deploys/deployLibraries.ts: the linked libraries.
use set_protocol_v.Base.{[]}
use set_protocol_v.Contracts.{Address}
use set_protocol_v.Deploy.Chain.{Network, Instance, Action, deploy}

module _ (net : Network) (signer : Address) where
  unfoldable deploy_compound : Action Instance
  deploy_compound = deploy net signer "Compound" [] []

  unfoldable deploy_aave_v2 : Action Instance
  deploy_aave_v2 = deploy net signer "AaveV2" [] []

  unfoldable deploy_perp_v2 : Action Instance
  deploy_perp_v2 = deploy net signer "PerpV2" [] []

  unfoldable deploy_position_v2 : Action Instance
  deploy_position_v2 = deploy net signer "PositionV2" [] []

  unfoldable deploy_perp_v2_library_v2 : Action Instance
  deploy_perp_v2_library_v2 = deploy net signer "PerpV2LibraryV2" [] []

  unfoldable deploy_perp_v2_positions : Action Instance
  deploy_perp_v2_positions = deploy net signer "PerpV2Positions" [] []
