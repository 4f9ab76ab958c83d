-- ===== src/Deploy/Oracles.antt =====
-- utils/deploys/deployOracles.ts: the oracle adapters.
use set_protocol_v.Base.{String, [], ◌∷◌}
use set_protocol_v.Base.Int.{ℤ}
use set_protocol_v.Contracts.{Address}
use set_protocol_v.Deploy.Chain.{Network, Instance, Action, address, number, text, deploy}

module _ (net : Network) (signer : Address) where
  unfoldable deploy_c_token_oracle : Address → Address → ℤ → ℤ → String → Action Instance
  deploy_c_token_oracle c_token underlying_oracle c_token_full_unit underlying_full_unit
        data_description =
      deploy net signer "CTokenOracle" [] (
        address c_token
        ∷ address underlying_oracle
        ∷ number c_token_full_unit
        ∷ number underlying_full_unit
        ∷ text data_description
        ∷ [])

  unfoldable deploy_yearn_vault_oracle : Address → Address → ℤ → String → Action Instance
  deploy_yearn_vault_oracle vault underlying_oracle underlying_full_unit data_description =
      deploy net signer "YearnVaultOracle" [] (
        address vault
        ∷ address underlying_oracle
        ∷ number underlying_full_unit
        ∷ text data_description
        ∷ [])
