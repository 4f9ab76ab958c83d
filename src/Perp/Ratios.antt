-- ===== src/Perp/Ratios.antt =====
-- utils/common/perpV2Utils.ts: the leverage ratios of all positions.
use set_protocol_v.Base.{refl, ◌≢◌, ◌≡◌, ok, List, [], ◌∷◌, ◌++◌, map, append_assoc, append-nil}
use set_protocol_v.Base.Int.{Truncates, quot-Truncates, quot, ◌+ℤ◌, ℤ, pos, ◌*ℤ◌}
use set_protocol_v.Ethers.{BigNumber}
use set_protocol_v.Contracts.{Address}
use set_protocol_v.PreciseMath.{precise_unit}
use set_protocol_v.PreciseMath.Rounding.{precise_mul-value, precise_div-value}
use set_protocol_v.Perp.Views.{PositionInfo, PerpModule, Deployment, AccountInfo}
use set_protocol_v.Perp.Expected.{leverage_ratios_from, calculate_leverage_ratios}

abbrev pub token_of : PositionInfo → Address
token_of p = p.base_token

module _ (d : Deployment) (total : ℤ) where
  -- The price of each position's token can be read, and no account value is zero.
  abbrev pub EachValued : List PositionInfo → Type 0
  EachValued [] = Unit
  EachValued (p ∷ ps) =
      ((price : ℤ) × (d.get_index_price p.base_token ≡ ok price)
        × (quot (price *ℤ p.base_balance) precise_unit +ℤ total +ℤ p.quote_balance ≢ pos 0))
      × EachValued ps

  -- `r` is the leverage of a position: its value at the index price, over what that value, the
  -- collateral and its quote balance are in all. Value and ratio are rounded towards zero.
  abbrev pub IsLeverage : PositionInfo → ℤ → Type 0
  IsLeverage p r =
      (price value : ℤ) × (d.get_index_price p.base_token ≡ ok price)
      × Truncates (price *ℤ p.base_balance) precise_unit value
      × Truncates (value *ℤ precise_unit) (value +ℤ total +ℤ p.quote_balance) r

  -- The leverage of each position, in the positions' order.
  abbrev pub EachLeverage : List PositionInfo → List ℤ → Type 0
  EachLeverage [] [] = Unit
  EachLeverage [] (_ ∷ _) = ⊥
  EachLeverage (_ ∷ _) [] = ⊥
  EachLeverage (p ∷ ps) (r ∷ rs) = IsLeverage p r × EachLeverage ps rs

module _ (bn : BigNumber) (d : Deployment) (total : ℤ) where
  leverage_ratios_from_lem :
      (tokens : List Address) (ratios : List ℤ) (positions : List PositionInfo)
      → EachValued d total positions
      → (rs : List ℤ) × (leverage_ratios_from bn d total tokens ratios positions
          ≡ ok (tokens ++ map token_of positions, ratios ++ rs))
        × EachLeverage d total positions rs
  unfolding leverage_ratios_from
  leverage_ratios_from_lem tokens ratios [] valued =
      ([], rw (append-nil tokens, append-nil ratios) refl, tt)
  leverage_ratios_from_lem tokens ratios (p ∷ ps) ((price, read, ne), rest) =
      let value : ℤ = quot (price *ℤ p.base_balance) precise_unit in
      let account : ℤ = value +ℤ total +ℤ p.quote_balance in
      let r : ℤ = quot (value *ℤ precise_unit) account in
      let (rs, runs, each) =
        leverage_ratios_from_lem (tokens ++ token_of p ∷ []) (ratios ++ r ∷ []) ps rest in
      (
        r ∷ rs,
        rw read (
            rw (precise_mul-value bn price p.base_balance) (
              rw (bn.add_lem value total, bn.add_lem (value +ℤ total) p.quote_balance)
                (rw (precise_div-value bn value account ne) (
                  rw
                    (
                      ← append_assoc tokens (token_of p ∷ []) (map token_of ps),
                      ← append_assoc ratios (r ∷ []) rs,
                    )
                    runs)))),
        (
          (
            price,
            value,
            read,
            quot-Truncates (price *ℤ p.base_balance) precise_unit (λ e. cc),
            quot-Truncates (value *ℤ precise_unit) account ne,
          ),
          each,
        ),
      )

-- The collateral of an account with what funding and trades owe it.
abbrev pub total_collateral : AccountInfo → ℤ
total_collateral account =
    account.collateral_balance +ℤ account.owed_realized_pnl +ℤ account.pending_funding_payments

module _ (bn : BigNumber) (set_token : Address) (perp : PerpModule) (d : Deployment)
    {account : AccountInfo} {positions : List PositionInfo} where
  -- Where the account, the positions and each position's index price can be read and no account value
  -- is zero, the positions' tokens are returned in order, with the leverage of each: its value over
  -- the sum of that value, the collateral with all that is owed, and the position's quote balance.
  pub leverage_ratios_order :
      perp.get_account_info set_token ≡ ok account
      → perp.get_position_notional_info set_token ≡ ok positions
      → EachValued d (total_collateral account) positions
      → (rs : List ℤ) × (calculate_leverage_ratios bn set_token perp d
          ≡ ok (map token_of positions, rs))
        × EachLeverage d (total_collateral account) positions rs
  unfolding calculate_leverage_ratios
  leverage_ratios_order told held valued =
      let (rs, runs, each) =
        leverage_ratios_from_lem bn d (total_collateral account) [] [] positions valued in
      (
        rs,
        rw (told, held)
            (rw
              (
                bn.add_lem account.collateral_balance account.owed_realized_pnl,
                bn.add_lem (account.collateral_balance +ℤ account.owed_realized_pnl)
                    account.pending_funding_payments,
              )
              runs),
        each,
      )
