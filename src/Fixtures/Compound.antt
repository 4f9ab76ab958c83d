-- ===== src/Fixtures/Compound.antt =====
-- utils/fixtures/compoundFixture.ts: Compound with a mock oracle, its governance, and new markets.
pub mod Markets
use set_protocol_v.Base.{String, ◌*◌, ◌^◌, [], ◌∷◌, Option}
use set_protocol_v.Base.Int.{ℤ, pos}
use set_protocol_v.Units.{ether}
use set_protocol_v.Contracts.{Address}
use set_protocol_v.Deploy.Chain.{
  Network, Instance, Action, address, addresses, number, texts, pure, or_default, ◌>>=◌, ◌>>◌,
  invoke,
}
use set_protocol_v.Deploy.External.Lending.{
  deploy_compound_price_oracle_mock, deploy_price_oracle_proxy, deploy_unitroller,
  deploy_comptroller, deploy_white_paper_interest_rate_model, deploy_comp, deploy_compound_timelock,
  deploy_compound_governor_alpha, deploy_ce_rc20, deploy_c_ether,
}

-- The fields that `initialize` sets.
pub record CompoundFixture : Type 0 where
  pub price_oracle : Instance
  pub price_oracle_proxy : Instance
  pub unitroller : Instance
  pub comptroller : Instance
  pub interest_rate_model : Instance
  pub comp : Instance
  pub compound_timelock : Instance
  pub compound_governor_alpha : Instance

module _ (net : Network) (owner_address : Address) where
  -- `ether(0.5)` and `ether(1.08)` are written out.
  unfoldable initialize_compound : Address → Action CompoundFixture
  initialize_compound address_zero = do
    price_oracle ← deploy_compound_price_oracle_mock net owner_address
    price_oracle_proxy ←
        deploy_price_oracle_proxy net owner_address address_zero price_oracle.address address_zero
          address_zero address_zero address_zero address_zero
    unitroller ← deploy_unitroller net owner_address
    comptroller ← deploy_comptroller net owner_address
    invoke net owner_address unitroller "_setPendingImplementation"
        (address comptroller.address ∷ []) (pos 0)
    invoke net owner_address comptroller "_become"
        (address unitroller.address ∷ number (pos 0) ∷ addresses [] ∷ texts [] ∷ []) (pos 0)
    invoke net owner_address comptroller "_setPriceOracle" (address price_oracle.address ∷ [])
        (pos 0)
    invoke net owner_address comptroller "_setMaxAssets" (number (pos 10) ∷ []) (pos 0)
    invoke net owner_address comptroller "_setCloseFactor" (number (pos (5 * 10 ^ 17)) ∷ []) (pos 0)
    invoke net owner_address comptroller "_setLiquidationIncentive"
        (number (pos (108 * 10 ^ 16)) ∷ []) (pos 0)
    interest_rate_model ←
        deploy_white_paper_interest_rate_model net owner_address (ether 1) (ether 1)
    comp ← deploy_comp net owner_address owner_address
    invoke net owner_address comp "transfer"
        (address comptroller.address ∷ number (ether 400_000) ∷ []) (pos 0)
    compound_timelock ←
        deploy_compound_timelock net owner_address owner_address (pos (60 * 60 * 24 * 2))
    compound_governor_alpha ←
        deploy_compound_governor_alpha net owner_address compound_timelock.address comp.address
          owner_address
    pure (record {
      price_oracle = price_oracle;
      price_oracle_proxy = price_oracle_proxy;
      unitroller = unitroller;
      comptroller = comptroller;
      interest_rate_model = interest_rate_model;
      comp = comp;
      compound_timelock = compound_timelock;
      compound_governor_alpha = compound_governor_alpha;
    })

  -- The end of both functions below: the market is supported, then priced, then usable as collateral.
  unfoldable pub enable_market : CompoundFixture → Instance → ℤ → ℤ → Action Instance
  enable_market f new_c_token collateral_factor current_price = do
    invoke net owner_address f.comptroller "_supportMarket" (address new_c_token.address ∷ [])
        (pos 0)
    invoke net owner_address f.price_oracle "setUnderlyingPrice"
        (address new_c_token.address ∷ number current_price ∷ []) (pos 0)
    invoke net owner_address f.comptroller "_setCollateralFactor"
        (address new_c_token.address ∷ number collateral_factor ∷ []) (pos 0)
    pure new_c_token

  unfoldable pub create_and_enable_c_token :
      CompoundFixture
      → Address
      → ℤ
      → Option Address
      → Option Address
      → Option String
      → Option String
      → Option ℤ
      → ℤ
      → ℤ
      → Action Instance
  unfolding enable_market
  create_and_enable_c_token f underlying initial_exchange_rate_mantissa comptroller
        interest_rate_model name symbol decimals collateral_factor current_price =
      do
        new_c_token ←
            deploy_ce_rc20 net owner_address underlying
              (or_default comptroller f.unitroller.address)
              (or_default interest_rate_model f.interest_rate_model.address)
              initial_exchange_rate_mantissa (or_default name "CToken") (or_default symbol "CT")
              (or_default decimals (pos 8))
        enable_market f new_c_token collateral_factor current_price

  unfoldable pub create_and_enable_c_ether :
      CompoundFixture
      → ℤ
      → Option Address
      → Option Address
      → Option String
      → Option String
      → Option ℤ
      → ℤ
      → ℤ
      → Action Instance
  unfolding enable_market
  create_and_enable_c_ether f initial_exchange_rate_mantissa comptroller interest_rate_model name
        symbol decimals collateral_factor current_price =
      do
        new_c_token ←
            deploy_c_ether net owner_address (or_default comptroller f.unitroller.address)
              (or_default interest_rate_model f.interest_rate_model.address)
              initial_exchange_rate_mantissa (or_default name "CEther") (or_default symbol "CETH")
              (or_default decimals (pos 8))
        enable_market f new_c_token collateral_factor current_price
