-- ===== src/Perp/Funding.antt =====
-- utils/common/perpV2Utils.ts: the growth of funding; utils/fixtures/perpV2Fixture.ts: the price that a pool
-- states.
use set_protocol_v.Base.{
  refl, ◌∙◌, true, false, Bool-cases, inl, inr, ◌⊎◌, ℕ, zero, suc, ◌+◌, ◌*◌, ◌/◌, ◌^◌, ◌≤◌, ◌<◌,
  ◌≡◌, ◌≢◌, ap, Bool, if◌then◌else◌, ok, arith,
}
use set_protocol_v.Base.Int.{
  ◌<ℤ◌, ◌≤ℤ◌, ℤ, pos, negsuc, ◌+ℤ◌, ◌-ℤ◌, ◌*ℤ◌, quot, nat_abs, ltb_ℤ, neg_of, nat_abs-quot,
  -ℤ_parts, eq_of_parts, nat_abs-*ℤ, div_upper,
}
use set_protocol_v.Ethers.{BigNumber, bn_laws}
use set_protocol_v.Contracts.{Address}
use set_protocol_v.PreciseMath.{precise_unit}
use set_protocol_v.PreciseMath.Naturals.{unit}
use set_protocol_v.PreciseMath.Rounding.{precise_mul-value}
use set_protocol_v.Perp.Views.{Deployment, Jsbi}
use set_protocol_v.Perp.Fixture.{get_price_from_sqrt_price_x96}
use set_protocol_v.Perp.Expected.{get_net_funding_growth}
use native.Mathlib.Nat.{div-mul-le_self, mul-le-mul_right, le_trans}

-- The premium per day, from what the exchange answers.
abbrev daily_premium : ℤ → ℤ
daily_premium tw =
    quot (quot (tw *ℤ precise_unit) (pos 79_228_162_514_264_337_593_543_950_336)) (pos 86_400)

-- The size of the growth of a balance.
abbrev pub growth_size : ℤ → ℤ → ℕ
growth_size tw balance = nat_abs (quot (balance *ℤ daily_premium tw) precise_unit)

times_minus_one : (n : ℕ) → pos n *ℤ negsuc 0 ≡ neg_of n
unfolding ◌*ℤ◌
times_minus_one n = ap neg_of (omega arith)

module _ (bn : BigNumber) (token : Address) (balance : ℤ) (d : Deployment) {tw mark index : ℤ} where
  funding_growth_lem :
      d.get_funding_growth_global_and_twaps token ≡ ok (tw, mark, index)
      → get_net_funding_growth bn token balance d
        ≡ ok (
            if ltb_ℤ mark index
            then if ltb_ℤ (pos 0) balance
              then pos (growth_size tw balance)
              else neg_of (growth_size tw balance)
            else if ltb_ℤ (pos 0) balance
            then neg_of (growth_size tw balance)
            else pos (growth_size tw balance))
  unfolding get_net_funding_growth
  funding_growth_lem e =
      rw e (simp (bn_laws, get_net_funding_growth, precise_mul-value bn, times_minus_one))

-- A long gains while the mark price is below the index price, and a short while it is not.
abbrev pub Gains : ℤ → ℤ → ℤ → Type 0
Gains mark index balance =
    ((mark <ℤ index) × (pos 0 <ℤ balance)) ⊎ ((index ≤ℤ mark) × (balance ≤ℤ pos 0))

abbrev pub Loses : ℤ → ℤ → ℤ → Type 0
Loses mark index balance =
    ((mark <ℤ index) × (balance ≤ℤ pos 0)) ⊎ ((index ≤ℤ mark) × (pos 0 <ℤ balance))

below_of_test : (a b : ℤ) → ltb_ℤ a b ≡ true → a <ℤ b
below_of_test a b e = ground arith

above_of_test : (a b : ℤ) → ltb_ℤ a b ≡ false → b ≤ℤ a
above_of_test a b e = ground arith

funding_direction :
    (mark index balance : ℤ) (k : ℕ)
    → let g : ℤ =
        if ltb_ℤ mark index
        then if ltb_ℤ (pos 0) balance then pos k else neg_of k
        else if ltb_ℤ (pos 0) balance
        then neg_of k
        else pos k in
      (Gains mark index balance × (g ≡ pos k)) ⊎ (Loses mark index balance × (g ≡ neg_of k))
funding_direction mark index balance k = elim (Bool-cases (ltb_ℤ mark index)) [
  | inl below ↦ elim (Bool-cases (ltb_ℤ (pos 0) balance)) [
    | inl long ↦ inl (
      inl (below_of_test mark index below, below_of_test (pos 0) balance long),
      rw (below, long) refl,
    )
    | inr short ↦ inr (
      inl (below_of_test mark index below, above_of_test (pos 0) balance short),
      rw (below, short) refl,
    )
  ]
  | inr above ↦ elim (Bool-cases (ltb_ℤ (pos 0) balance)) [
    | inl long ↦ inr (
      inr (above_of_test mark index above, below_of_test (pos 0) balance long),
      rw (above, long) refl,
    )
    | inr short ↦ inl (
      inr (above_of_test mark index above, above_of_test (pos 0) balance short),
      rw (above, short) refl,
    )
  ]
]

lt-suc_le : {m n : ℕ} → m < n → m + 1 ≤ n
lt-suc_le h = omega arith

two_quotients :
    (n a b : ℕ) → 0 < a → 0 < b → (n / a / b * b * a ≤ n) × (n < (n / a / b + 1) * b * a)
two_quotients n a b h k =
    let inner : n / a / b * b * a ≤ n / a * a = mul-le-mul_right a (div-mul-le_self (n / a) b) in
    let outer : (n / a + 1) * a ≤ (n / a / b + 1) * b * a =
      mul-le-mul_right a (lt-suc_le (div_upper (n / a) b k)) in
    (le_trans inner (div-mul-le_self n a), le_trans (div_upper n a h) outer)

daily_size : (tw : ℤ) → nat_abs (daily_premium tw) ≡ nat_abs tw * unit / 2 ^ 96 / 86_400
daily_size tw =
    nat_abs-quot _ (pos 86_400)
    ∙ ap (λ n. n / 86_400)
        (nat_abs-quot (tw *ℤ precise_unit) (pos (2 ^ 96))
          ∙ ap (λ n. n / 2 ^ 96) (nat_abs-*ℤ tw precise_unit))

growth_size_lem :
    (tw balance : ℤ) → growth_size tw balance ≡ nat_abs balance * nat_abs (daily_premium tw) / unit
growth_size_lem tw balance =
    nat_abs-quot (balance *ℤ daily_premium tw) precise_unit
    ∙ ap (λ n. n / unit) (nat_abs-*ℤ balance (daily_premium tw))

module _ (bn : BigNumber) (token : Address) (balance : ℤ) (d : Deployment) {tw mark index : ℤ} where
  -- Where the exchange answers, the daily premium is the size of the funding growth, taken out of its
  -- scale of 2^96, per day and in units of 10^-18, rounded down; and the growth of a balance is the
  -- size of the balance times the premium, rounded down. It is a gain, or zero, for a long while the
  -- mark price is below the index price and for a balance that is not positive while it is not below,
  -- and a loss, or zero, otherwise.
  pub funding_growth_sign :
      d.get_funding_growth_global_and_twaps token ≡ ok (tw, mark, index)
      → (g : ℤ) × (premium k : ℕ) × (get_net_funding_growth bn token balance d ≡ ok g)
        × (premium * 86_400 * 2 ^ 96 ≤ nat_abs tw * unit)
        × (nat_abs tw * unit < (premium + 1) * 86_400 * 2 ^ 96)
        × (k * unit ≤ nat_abs balance * premium)
        × (nat_abs balance * premium < (k + 1) * unit)
        × ((Gains mark index balance × (g ≡ pos k)) ⊎ (Loses mark index balance × (g ≡ neg_of k)))
  funding_growth_sign e =
      let premium : ℕ = nat_abs (daily_premium tw) in
      let (lower, upper) =
        two_quotients (nat_abs tw * unit) (2 ^ 96) 86_400 (omega arith) (omega arith) in
      (
        _,
        premium,
        growth_size tw balance,
        funding_growth_lem bn token balance d e,
        rw (daily_size tw) lower,
        rw (daily_size tw) upper,
        rw (growth_size_lem tw balance) (div-mul-le_self (nat_abs balance * premium) unit),
        rw (growth_size_lem tw balance) (div_upper (nat_abs balance * premium) unit (omega arith)),
        funding_direction mark index balance (growth_size tw balance),
      )

nat_abs_opposite : (b : ℤ) → nat_abs (pos 0 -ℤ b) ≡ nat_abs b
unfolding ◌-ℤ◌
nat_abs_opposite b = ground arith

growth_size_opposite : (tw balance : ℤ) → growth_size tw (pos 0 -ℤ balance) ≡ growth_size tw balance
growth_size_opposite tw balance =
    rw (nat_abs-quot, nat_abs-*ℤ, nat_abs_opposite balance)
      (rw (nat_abs-quot (balance *ℤ daily_premium tw) precise_unit, nat_abs-*ℤ balance))

pos_neg_cancel : (k : ℕ) → (pos k +ℤ neg_of k ≡ pos 0) × (neg_of k +ℤ pos k ≡ pos 0)
unfolding ◌+ℤ◌
pos_neg_cancel zero = (ground arith, ground arith)
pos_neg_cancel (suc k) = (ground arith, ground arith)

cancel_growth :
    (b : ℤ) (below : Bool) (k l : ℕ)
    → l ≡ k
    → b ≢ pos 0
    → (if below
          then if ltb_ℤ (pos 0) b then pos k else neg_of k
          else if ltb_ℤ (pos 0) b
          then neg_of k
          else pos k)
        +ℤ (if below
            then if ltb_ℤ (pos 0) (pos 0 -ℤ b) then pos l else neg_of l
            else if ltb_ℤ (pos 0) (pos 0 -ℤ b)
            then neg_of l
            else pos l)
      ≡ pos 0
cancel_growth b below k l e ne =
    ground (arith, pos_neg_cancel k, -ℤ_parts (pos 0) b, eq_of_parts b (pos 0))

module _ (bn : BigNumber) (token : Address) (balance : ℤ) (d : Deployment) {tw mark index : ℤ} where
  -- Where the exchange answers and the balance is not zero, the growths of the balance and of the
  -- opposite balance cancel: what a long gains a short of the same size pays.
  pub funding_zero_sum :
      d.get_funding_growth_global_and_twaps token ≡ ok (tw, mark, index)
      → balance ≢ pos 0
      → (g h : ℤ) × (get_net_funding_growth bn token balance d ≡ ok g)
        × (get_net_funding_growth bn token (pos 0 -ℤ balance) d ≡ ok h)
        × (g +ℤ h ≡ pos 0)
  funding_zero_sum e ne = (
    _,
    _,
    funding_growth_lem bn token balance d e,
    funding_growth_lem bn token (pos 0 -ℤ balance) d e,
    cancel_growth balance (ltb_ℤ mark index) _ _ (growth_size_opposite tw balance) ne,
  )

module _ (js : Jsbi) (s : ℕ) where
  -- The price of a pool is the square of the square root it stores, divided by 2^192, in units of
  -- 10^-18 and rounded down.
  pub price_bounds :
      (p : ℕ) × (get_price_from_sqrt_price_x96 js (pos s) ≡ ok (pos p))
      × (p * 2 ^ 192 ≤ s * s * unit)
      × (s * s * unit < (p + 1) * 2 ^ 192)
  unfolding get_price_from_sqrt_price_x96 ◌*ℤ◌ quot
  price_bounds = (
    s * s * unit / 2 ^ 192,
    rw
        (
          js.exponentiate_lem 2 192,
          js.multiply_lem (pos s) (pos s),
          js.multiply_lem (pos (s * s)) (pos unit),
        )
        (js.divide_lem (pos (s * s * unit)) (pos (2 ^ 192)) (λ e. cc)),
    div-mul-le_self (s * s * unit) (2 ^ 192),
    div_upper (s * s * unit) (2 ^ 192) (omega arith),
  )
