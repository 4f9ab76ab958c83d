-- ===== src/Fixtures/Compound/Markets.antt =====
-- utils/fixtures/compoundFixture.ts: what a new market has when it is returned, on any network.
use set_protocol_v.Base.{
  ◌≡◌, ◌∙◌, ◌⊎◌, inl, inr, String, List, [], ◌∷◌, ◌++◌, ok, err, reverted, Option,
}
use set_protocol_v.Base.Int.{ℤ, pos}
use set_protocol_v.Contracts.{Address}
use set_protocol_v.Deploy.Chain.{
  Network, Instance, World, Transaction, creation, call, address, number, text, or_default,
}
use set_protocol_v.Deploy.Accepted.{later}
use set_protocol_v.Deploy.Cases.{deploy-cases, invoke-cases}
use set_protocol_v.Deploy.External.Lending.{deploy_ce_rc20}
use set_protocol_v.Fixtures.Compound.{CompoundFixture, enable_market, create_and_enable_c_token}

module _ (net : Network) (owner : Address) where
  -- The three transactions of a market, the last one first.
  abbrev pub market_log : CompoundFixture → Address → ℤ → ℤ → List Transaction
  market_log f market factor price =
      call f.comptroller.address "_setCollateralFactor" (address market ∷ number factor ∷ [])
        (pos 0)
      ∷ call f.price_oracle.address "setUnderlyingPrice" (address market ∷ number price ∷ [])
          (pos 0)
      ∷ call f.comptroller.address "_supportMarket" (address market ∷ []) (pos 0)
      ∷ []

  enable_market_cases :
      (f : CompoundFixture) (market : Instance) (factor price : ℤ) (w : World)
      → (enable_market net owner f market factor price w ≡ err reverted)
        ⊎ (enable_market net owner f market factor price w
            ≡ ok (
              market,
              record {
                nonce = later 3 w.nonce;
                log = market_log f market.address factor price ++ w.log;
              },
            ))
  unfolding enable_market
  enable_market_cases f market factor price w = elim (invoke-cases net owner _ _ _ _ _) [
    | inl thrown ↦ inl thrown
    | inr first ↦ elim (invoke-cases net owner _ _ _ _ _) [
      | inl thrown ↦ inl (first ∙ thrown)
      | inr second ↦ elim (invoke-cases net owner _ _ _ _ _) [
        | inl thrown ↦ inl (first ∙ second ∙ thrown)
        | inr third ↦ inr (first ∙ second ∙ third)
      ]
    ]
  ]

  -- The market, and the transactions of `createAndEnableCToken`, the last one first.
  abbrev pub c_token_at : World → Instance
  c_token_at w = record { contract = "CERc20"; address = net.create_address owner w.nonce }

  -- On any network, `createAndEnableCToken` is rejected, or it returns the contract that it has created,
  -- with the given underlying asset and the defaults for what was left out, and has sent four
  -- transactions more: the creation, then the market is supported, priced, and usable as
  -- collateral, in this order.
  pub create_and_enable_c_token_cases :
      (f : CompoundFixture) (underlying : Address) (mantissa : ℤ)
      (comptroller model : Option Address) (name symbol : Option String) (decimals : Option ℤ)
      (factor price : ℤ) (w : World)
      → (create_and_enable_c_token net owner f underlying mantissa comptroller model name symbol
            decimals factor price w
          ≡ err reverted)
        ⊎ (create_and_enable_c_token net owner f underlying mantissa comptroller model name symbol
              decimals factor price w
            ≡ ok (
              c_token_at w,
              record {
                nonce = later 4 w.nonce;
                log =
                    market_log f (c_token_at w).address factor price
                    ++ creation "CERc20" [] (
                        address underlying
                        ∷ address (or_default comptroller f.unitroller.address)
                        ∷ address (or_default model f.interest_rate_model.address)
                        ∷ number mantissa
                        ∷ text (or_default name "CToken")
                        ∷ text (or_default symbol "CT")
                        ∷ number (or_default decimals (pos 8))
                        ∷ [])
                      ∷ w.log;
              },
            ))
  unfolding create_and_enable_c_token deploy_ce_rc20
  create_and_enable_c_token_cases f underlying mantissa comptroller model name symbol decimals
        factor price w =
      elim (deploy-cases net owner _ _ w (λ c. enable_market net owner f c factor price)) [
        | inl thrown ↦ inl thrown
        | inr created ↦ elim (enable_market_cases f (c_token_at w) factor price _) [
          | inl thrown ↦ inl (created ∙ thrown)
          | inr enabled ↦ inr (created ∙ enabled)
        ]
      ]
