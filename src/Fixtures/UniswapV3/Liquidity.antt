-- ===== src/Fixtures/UniswapV3/Liquidity.antt =====
-- utils/fixtures/uniswapV3Fixture.ts: what `addLiquidityWide` mints.
use set_protocol_v.Base.{◌≡◌, ◌≢◌, ◌/◌, ◌^◌, ◌-◌, true, [], ◌∷◌, refl, Bool-cases, inl, inr}
use set_protocol_v.Base.Int.{ℤ, pos}
use set_protocol_v.Js.{str_lt, to_lower_case}
use set_protocol_v.Js.Order.{str_lt_total, str_lt_asymm}
use set_protocol_v.Contracts.{Address}
use set_protocol_v.Deploy.Chain.{Network, Instance, Action, address, number, invoke}
use set_protocol_v.Fixtures.UniswapV3.{
  UniswapV3Contracts, order_instances, FeeTier, fee_of, get_pool, add_liquidity_wide,
}
use set_protocol_v.PerpSystem.Ticks.{get_min_tick, get_max_tick}

module _ (net : Network) (owner : Address) where
  -- For tokens `a` and `b` with the address of `a` below that of `b` in lower case, and any fee tier:
  -- giving `addLiquidityWide` the two in either order, each with its amount, sends the same
  -- transaction, `mint` of the position manager with `a` as the first token and its amount as the
  -- first amount, `b` and its amount as the second, the widest range of ticks for a spacing of a
  -- fiftieth of the fee, no minimum amounts, no deadline, and the recipient.
  pub add_liquidity_wide_swap :
      (c : UniswapV3Contracts) (a b : Instance) (fee : FeeTier) (amount_a amount_b : ℤ)
      (recipient : Address)
      → str_lt (to_lower_case a.address) (to_lower_case b.address) ≡ true
      → let mint : Action (Unit {0}) =
          invoke net owner c.nft_position_manager "mint"
            (number (pos (fee_of fee))
              ∷ address a.address
              ∷ address b.address
              ∷ number (get_min_tick (fee_of fee / 50))
              ∷ number (get_max_tick (fee_of fee / 50))
              ∷ number amount_a
              ∷ number amount_b
              ∷ number (pos 0)
              ∷ number (pos 0)
              ∷ number (pos (2 ^ 256 - 1))
              ∷ address recipient
              ∷ [])
            (pos 0) in
        (add_liquidity_wide net owner c a b fee amount_a amount_b recipient ≡ mint)
        × (add_liquidity_wide net owner c b a fee amount_b amount_a recipient ≡ mint)
  unfolding add_liquidity_wide
  add_liquidity_wide_swap c a b fee amount_a amount_b recipient below =
      (rw (str_lt_asymm _ _ below) refl, rw below refl)

  -- The pool that `getPool` asks for does not depend on the order of its tokens, if their addresses
  -- differ in lower case.
  get_pool_swap :
      (c : UniswapV3Contracts) (a b : Instance) (fee : ℤ)
      → to_lower_case a.address ≢ to_lower_case b.address
      → get_pool net owner c a b fee ≡ get_pool net owner c b a fee
  unfolding get_pool order_instances
  get_pool_swap c a b fee different =
      elim (Bool-cases (str_lt (to_lower_case a.address) (to_lower_case b.address))) [
        | inl ab ↦ rw (ab, str_lt_asymm _ _ ab) refl
        | inr ab ↦ elim (Bool-cases (str_lt (to_lower_case b.address) (to_lower_case a.address))) [
          | inl ba ↦ rw (ab, ba) refl
          | inr ba ↦ absurd (different (str_lt_total _ _ ab ba))
        ]
      ]
