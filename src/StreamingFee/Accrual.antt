-- ===== src/StreamingFee/Accrual.antt =====
-- How much fee accrues, and how many tokens carry it.
use set_protocol_v.Base.{
  ℕ, ◌+◌, ◌-◌, ◌*◌, ◌/◌, ◌≤◌, ◌<◌, ◌≡◌, refl, ok, err, division_by_zero, Option, none, some, inl,
  inr, ◌⊎◌, arith,
}
use set_protocol_v.Base.Int.{ℤ, pos, quot, div_upper}
use set_protocol_v.Ethers.{BigNumber}
use set_protocol_v.Contracts.{Address, StreamingFeeModule}
use set_protocol_v.PreciseMath.Naturals.{unit, sub-pos, mul-pos}
use set_protocol_v.StreamingFee.{
  accrual_rate, get_streaming_fee, get_streaming_fee_inflation_amount,
}
use native.Mathlib.Nat.{div-mul-le_self}

module _ (bn : BigNumber) where
  div-pos : (a b : ℕ) → 0 < b → bn.div (pos a) (pos b) ≡ ok (pos (a / b))
  unfolding quot
  div-pos a b h = bn.div_lem (pos a) (pos b) (ground arith)

inflation_bounds :
    (i s d r : ℕ)
    → d + i ≡ unit
    → r * d ≤ i * s
    → i * s < (r + 1) * d
    → (r * unit ≤ i * (s + r)) × (i * (s + r + 1) < (r + 1) * unit)
inflation_bounds i s d r e h k = rw (← e) (omega (arith, h, k))

module _ (bn : BigNumber) (i s : ℕ) where
  -- For an inflation below 100% the amount is the largest number of new tokens whose share of the
  -- supply that includes them is at most the inflation.
  pub inflation_amount_bounds :
      i < unit
      → (r : ℕ) × (get_streaming_fee_inflation_amount bn (pos i) (pos s) ≡ ok (pos r))
        × (r * unit ≤ i * (s + r))
        × (i * (s + r + 1) < (r + 1) * unit)
  unfolding get_streaming_fee_inflation_amount
  inflation_amount_bounds h =
      let d : ℕ = unit - i in
      let (l, u) =
        inflation_bounds i s d (i * s / d) (omega arith) (div-mul-le_self (i * s) d)
          (div_upper (i * s) d (omega arith)) in
      (
        i * s / d,
        rw (get_streaming_fee_inflation_amount, mul-pos bn i s, sub-pos bn unit i (omega arith))
            (div-pos bn (i * s) d (omega arith)),
        l,
        u,
      )

  -- At an inflation of 100% the amount is undefined, and the division throws.
  pub inflation_amount_throws :
      i ≡ unit → get_streaming_fee_inflation_amount bn (pos i) (pos s) ≡ err division_by_zero
  unfolding get_streaming_fee_inflation_amount
  inflation_amount_throws h =
      rw (get_streaming_fee_inflation_amount, mul-pos bn i s, sub-pos bn unit i (omega arith), diff)
        (bn.div_by_zero _)
    where
      diff : unit - i ≡ 0
      diff = omega arith

abbrev fee_between : ℕ → ℕ → ℕ → ℕ
fee_between rate since until = (until - since) * rate / 31_557_600

split_product : (t u v rate : ℕ) → t ≤ u → u ≤ v → (u - t) * rate + (v - u) * rate ≡ (v - t) * rate
split_product t u v rate h k =
    let e : (u - t) + (v - u) ≡ v - t = omega arith in rw (← e) (omega arith)

split_le :
    (t u v rate : ℕ)
    → t ≤ u
    → u ≤ v
    → fee_between rate t u + fee_between rate u v ≤ fee_between rate t v
split_le t u v rate h k = omega (arith, split_product t u v rate h k)

split_ge :
    (t u v rate : ℕ)
    → t ≤ u
    → u ≤ v
    → fee_between rate t v ≤ fee_between rate t u + fee_between rate u v + 1
split_ge t u v rate h k = omega (arith, split_product t u v rate h k)

-- The rate that the caller gives, or else the one of the module's state.
abbrev IsChosen : Option ℤ → ℤ → ℕ → Type 0
IsChosen given state rate = (given ≡ some (pos rate)) ⊎ ((given ≡ none) × (state ≡ pos rate))

IsChosen-accrual_rate :
    (given : Option ℤ) (state : ℤ) (rate : ℕ)
    → IsChosen given state rate
    → accrual_rate given state ≡ pos rate
IsChosen-accrual_rate given state rate (inl e) = rw e refl
IsChosen-accrual_rate given state rate (inr (e, held)) = rw e held

module _ (bn : BigNumber) (fees : StreamingFeeModule) (token : Address) (given : Option ℤ)
    {state : ℤ} (rate : ℕ) (read : fees.streaming_fee_percentage token ≡ ok state)
    (chosen : (given ≡ some (pos rate)) ⊎ ((given ≡ none) × (state ≡ pos rate))) where
  streaming_fee-value :
      (since until : ℕ)
      → since ≤ until
      → get_streaming_fee bn fees token (pos since) (pos until) given
        ≡ ok (pos (fee_between rate since until))
  unfolding get_streaming_fee
  streaming_fee-value since until h = rw read (
      rw (IsChosen-accrual_rate given state rate chosen, sub-pos bn until since h)
        (rw (mul-pos bn (until - since) rate) (div-pos bn _ 31_557_600 (omega arith))))

  -- Where the module's state can be read, and the rate is the one given, or the module's if none is
  -- given: the fee of one accrual is the rate per year of 365.25 days times the elapsed time, rounded
  -- down, and accruing at a time in between and again later yields in all as much, or one unit less.
  pub streaming_fee_split :
      (t u v : ℕ)
      → t ≤ u
      → u ≤ v
      → (x y z : ℕ) × (get_streaming_fee bn fees token (pos t) (pos u) given ≡ ok (pos x))
        × (get_streaming_fee bn fees token (pos u) (pos v) given ≡ ok (pos y))
        × (get_streaming_fee bn fees token (pos t) (pos v) given ≡ ok (pos z))
        × (z * 31_557_600 ≤ (v - t) * rate)
        × ((v - t) * rate < (z + 1) * 31_557_600)
        × (x + y ≤ z)
        × (z ≤ x + y + 1)
  streaming_fee_split t u v h k = (
    fee_between rate t u,
    fee_between rate u v,
    fee_between rate t v,
    streaming_fee-value t u h,
    streaming_fee-value u v k,
    streaming_fee-value t v (omega arith),
    div-mul-le_self ((v - t) * rate) 31_557_600,
    div_upper ((v - t) * rate) 31_557_600 (omega arith),
    split_le t u v rate h k,
    split_ge t u v rate h k,
  )
