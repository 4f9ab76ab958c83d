-- ===== src/System/Live/Pools.antt =====
-- utils/fixtures/systemFixtureDeploy.ts: the pools that `initializeStandardComponents` collects.
use set_protocol_v.Base.{ℕ, suc, ◌≡◌, refl, List, [], ◌∷◌, map, take, ok}
use set_protocol_v.Base.Int.{pos}
use set_protocol_v.Js.{codes}
use set_protocol_v.Units.{ether}
use set_protocol_v.Contracts.{Address}
use set_protocol_v.Deploy.Chain.{
  Network, Instance, World, Transaction, call, address, number, attach, ◌>>=◌, ◌>>◌, invoke, ask,
}
use set_protocol_v.Deploy.Accepted.{AcceptsAll}
use set_protocol_v.System.Live.{component_data, collect_pools, live_components}

-- The two contracts that are on the network already.
abbrev pub live_weth : Instance
live_weth = attach "ERC20" (codes "0x82aF49447D8a07e3bd95BD0d56f35241523fBab1")

abbrev pub uniswap_factory : Address
uniswap_factory = codes "0x1F98431c8aD98523631AE4a59f267346ea31F984"

module _ (net : Network) (all : AcceptsAll net) (owner : Address) where
  -- The call that lets a spender have ten thousand units of a token.
  abbrev allowance : Address → Address → Transaction
  allowance spender token =
      call token "approve" (address spender ∷ number (ether 10_000) ∷ []) (pos 0)

  -- The world after a component has been allowed, and after each of a list has.
  abbrev pub allowed : Address → Address → World → World
  allowed spender token w = record { nonce = suc w.nonce; log = allowance spender token ∷ w.log }

  abbrev pub all_allowed : Address → List (Address × ℕ) → World → World
  all_allowed spender [] w = w
  all_allowed spender (d ∷ rest) w = all_allowed spender rest (allowed spender d.0 w)

  module _ (factory_contract : Instance) (weth : Address) (pool : Address → ℕ → Address)
      (answers : (w : World) (token : Address) (fee : ℕ)
        → net.view w factory_contract.address "getPool"
            (address token ∷ address weth ∷ number (pos fee) ∷ [])
          ≡ ok (pool token fee)) where
    pub collect_pools_lem :
        (spender : Address) (tokens : List (Address × ℕ)) (w : World)
        → collect_pools net owner spender factory_contract weth tokens w
          ≡ ok (map (λ d. pool d.0 d.1) tokens, all_allowed spender tokens w)
    unfolding collect_pools ask invoke
    collect_pools_lem spender [] w = refl
    collect_pools_lem spender ((token, fee) ∷ rest) w =
        rw
          (
            ◌>>◌,
            ◌>>=◌,
            all w (allowance spender token),
            answers (allowed spender token w) token fee,
            collect_pools_lem spender rest (allowed spender token w),
          )
          refl

  -- If every transaction goes through and the factory answers for each token with a pool:
  -- `initializeStandardComponents` of the live deployment returns the pools of the first ten of its
  -- components, in their order, and has allowed the issuance module ten thousand units of the
  -- wrapped ether and then of each of these ten; nothing else is sent.
  pub live_components_pools :
      (pool : Address → ℕ → Address) (issuance_module : Instance) (w : World)
      → ((w : World) (token : Address) (fee : ℕ)
          → net.view w uniswap_factory "getPool"
              (address token ∷ address live_weth.address ∷ number (pos fee) ∷ [])
            ≡ ok (pool token fee))
      → live_components net owner issuance_module w
        ≡ ok (
          record {
            weth = live_weth;
            components = map (λ d. attach "ERC20" d.0) component_data;
            pool_addresses = map (λ d. pool d.0 d.1) (take 10 component_data);
          },
          all_allowed issuance_module.address
              (take 10 component_data)
              (allowed issuance_module.address live_weth.address w),
        )
  unfolding live_components invoke
  live_components_pools pool issuance_module w answers =
      rw
        (
          ◌>>◌,
          ◌>>=◌,
          all w (allowance issuance_module.address live_weth.address),
          collect_pools_lem (attach "Contract" uniswap_factory) live_weth.address pool answers
              issuance_module.address (take 10 component_data)
              (allowed issuance_module.address live_weth.address w),
        )
        refl
