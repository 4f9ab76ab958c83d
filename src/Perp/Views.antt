-- ===== src/Perp/Views.antt =====
-- What the contracts of Perpetual Protocol V2 and the Set's perp module answer. They are no code of
-- the repository's TypeScript, so each view is a field that may throw.
use set_protocol_v.Base.{ℕ, ◌^◌, ◌≡◌, ◌≢◌, refl, ok, err, numeric_fault, Bool, List, Result, Option}
use set_protocol_v.Base.Int.{ℤ, pos, ◌*ℤ◌, quot}
use set_protocol_v.Contracts.{Address}

-- `getAccountInfo`
pub record AccountInfo : Type 0 where
  pub collateral_balance : ℤ
  pub owed_realized_pnl : ℤ
  pub pending_funding_payments : ℤ
  pub net_quote_balance : ℤ

-- An entry of `getPositionUnitInfo`.
pub record PositionUnitInfo : Type 0 where
  pub base_token : Address
  pub base_unit : ℤ

-- `PositionInfo` of utils/fixtures/perpV2Fixture.ts, an entry of `getPositionNotionalInfo`.
pub record PositionInfo : Type 0 where
  pub base_token : Address
  pub base_balance : ℤ
  pub quote_balance : ℤ

-- A PerpV2LeverageModuleV2 or PerpV2BasisTradingModule.
pub record PerpModule : Type 0 where
  pub get_account_info : Address → Result AccountInfo
  pub get_position_unit_info : Address → Result (List PositionUnitInfo)
  pub get_position_notional_info : Address → Result (List PositionInfo)

-- The argument of `clearingHouse.openPosition`, less the fields that the fixture always sets alike.
pub record OpenPosition : Type 0 where
  pub base_token : Address
  pub is_base_to_quote : Bool
  pub is_exact_input : Bool
  pub amount : ℤ

-- What the fixture has deployed: `slot0` answers the square root of a pool's price, `open_position`
-- is the static call, as the other trader.
pub record Deployment : Type 0 where
  pub pools : Address → Option Address
  pub slot0_sqrt_price_x96 : Address → Result ℤ
  pub open_position : OpenPosition → Result (ℤ × ℤ)
  pub get_index_price : Address → Result ℤ
  pub get_funding_growth_global_and_twaps : Address → Result (ℤ × ℤ × ℤ)
  pub get_im_ratio : Result ℤ
  pub get_pnl_and_pending_fee : Address → Result (ℤ × ℤ)
  pub get_total_debt_value : Address → Result ℤ
  pub get_total_abs_position_value : Address → Result ℤ

-- The package `jsbi`, arbitrary precision integers: documented as the operations of BigInt,
-- whose division rounds towards zero.
pub record Jsbi : Type 0 where
  pub multiply : ℤ → ℤ → ℤ
  pub divide : ℤ → ℤ → Result ℤ
  pub exponentiate : ℤ → ℤ → Result ℤ
  pub multiply_lem : (a b : ℤ) → multiply a b ≡ a *ℤ b
  pub divide_lem : (a b : ℤ) → b ≢ pos 0 → divide a b ≡ ok (quot a b)
  pub exponentiate_lem : (a n : ℕ) → exponentiate (pos a) (pos n) ≡ ok (pos (a ^ n))

abbrev pub exact_power : ℤ → ℤ → Result ℤ
exact_power (pos a) (pos n) = ok (pos (a ^ n))
exact_power _ _ = err numeric_fault

-- An implementation that meets the documented behaviour, for runs at concrete inputs.
abbrev pub exact_js : Jsbi
exact_js = record {
  multiply = ◌*ℤ◌;
  divide = λ a b. ok (quot a b);
  exponentiate = exact_power;
  multiply_lem = λ a b. refl;
  divide_lem = λ a b h. refl;
  exponentiate_lem = λ a n. refl;
}
