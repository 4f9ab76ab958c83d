-- ===== src/Deploy/Viewers.antt =====
-- utils/deploys/deployViewers.ts: the viewers.
use set_protocol_v.Base.{[], ◌∷◌}
use set_protocol_v.Contracts.{Address}
use set_protocol_v.Deploy.Chain.{Network, Instance, Action, address, deploy}

module _ (net : Network) (signer : Address) where
  unfoldable deploy_protocol_viewer : Action Instance
  deploy_protocol_viewer = deploy net signer "ProtocolViewer" [] []

  unfoldable deploy_perp_v2_leverage_module_viewer :
      Address → Address → Address → Address → Action Instance
  deploy_perp_v2_leverage_module_viewer perp_module perp_account_balance perp_clearing_house_config
        v_quote_token =
      deploy net signer "PerpV2LeverageModuleViewer" [] (
        address perp_module
        ∷ address perp_account_balance
        ∷ address perp_clearing_house_config
        ∷ address v_quote_token
        ∷ [])
