-- ===== src/Perp/TransferIn.antt =====
-- Issuance: the spot price that `calculateUSDCTransferInPreciseUnits` reads cancels out.
use set_protocol_v.Base.{
  ℕ, ◌≡◌, ◌∙◌, ap, refl, if◌then◌else◌, Result, ok, err, ◌>>=◌, map_result, List, [], ◌∷◌, arith,
}
use set_protocol_v.Base.Int.{
  ℤ, pos, negsuc, ◌+ℤ◌, ◌-ℤ◌, ◌*ℤ◌, ◌≤ℤ◌, quot, nat_abs, leb_ℤ, int_laws, +ℤ_assoc,
}
use set_protocol_v.Ethers.{BigNumber, bn_laws}
use set_protocol_v.PreciseMath.{precise_unit, precise_mul}
use set_protocol_v.PreciseMath.Rounding.{precise_mul-value}
use set_protocol_v.Perp.Views.{PositionUnitInfo, Deployment, Jsbi}
use set_protocol_v.Perp.Fixture.{get_spot_price, get_swap_quote}
use set_protocol_v.Perp.Expected.{transfer_in_round, transfer_in_from}

-- The quote that a position's share of the issued quantity costs, or for a short returns.
abbrev pub quote_flow : Deployment → ℤ → PositionUnitInfo → Result ℤ
quote_flow d set_quantity p = do
  let base = quot (p.base_unit *ℤ set_quantity) precise_unit
  let is_long = leb_ℤ (pos 0) base
  (_, delta_quote) ← get_swap_quote d p.base_token (pos (nat_abs base)) is_long
  ok (if is_long then delta_quote else pos 0 -ℤ delta_quote)

abbrev pub quote_flows : Deployment → ℤ → List PositionUnitInfo → Result ℤ
quote_flows d set_quantity [] = ok (pos 0)
quote_flows d set_quantity (p ∷ ps) = do
  flow ← quote_flow d set_quantity p
  rest ← quote_flows d set_quantity ps
  ok (flow +ℤ rest)

-- Each position's token has a pool with a price, which is not negative.
abbrev pub Priced : Jsbi → Deployment → List PositionUnitInfo → Type 0
Priced js d [] = Unit
Priced js d (p ∷ ps) =
    ((price : ℕ) × (get_spot_price js d p.base_token ≡ ok (pos price))) × Priced js d ps

-- A value that is not above zero is the opposite of its magnitude.
cancel_long : (acc ideal dq : ℤ) → acc +ℤ ideal +ℤ (dq -ℤ ideal) ≡ acc +ℤ dq
cancel_long acc ideal dq = omega int_laws

cancel_short :
    (acc ideal dq : ℤ)
    → ideal ≤ℤ pos 0
    → acc +ℤ ideal +ℤ (pos (nat_abs ideal) -ℤ dq) ≡ acc +ℤ (pos 0 -ℤ dq)
cancel_short acc (pos m) dq h = omega int_laws
cancel_short acc (negsuc m) dq h = omega int_laws

ideal_of_short :
    (base : ℤ) (price : ℕ) → base ≤ℤ pos 0 → quot (base *ℤ pos price) precise_unit ≤ℤ pos 0
unfolding quot ◌*ℤ◌
ideal_of_short base price h = ground arith

chain :
    (m r : Result ℤ) (f : ℤ → Result ℤ) (acc : ℤ)
    → ((x : ℤ) → f x ≡ map_result (λ flow. x +ℤ flow) r)
    → (map_result (λ flow. acc +ℤ flow) m >>= f)
      ≡ map_result (λ flow. acc +ℤ flow) (m >>= (λ flow. r >>= (λ rest. ok (flow +ℤ rest))))
chain (err e) r f acc h = refl
chain (ok x) (ok y) f acc h = h (acc +ℤ x) ∙ ap ok (+ℤ_assoc acc x y)
chain (ok x) (err e) f acc h = h (acc +ℤ x)

module _ (bn : BigNumber) where
  -- The rest of a round, once the quote has answered.
  settle :
      (base : ℤ) (answer : Result (ℤ × ℤ)) (acc : ℤ) (price : ℕ)
      → (answer >>= λ (_, delta_quote). precise_mul bn base (pos price) >>= λ ideal_quote. ok (
          bn.add (bn.add acc ideal_quote) (
            if leb_ℤ (pos 0) base
            then bn.sub delta_quote ideal_quote
            else bn.sub (bn.abs ideal_quote) delta_quote)))
        ≡ map_result
            (λ flow. acc +ℤ flow)
            (answer >>= λ (_, delta_quote).
              ok (if leb_ℤ (pos 0) base then delta_quote else pos 0 -ℤ delta_quote))
  settle base (err e) acc price = refl
  settle base (ok (_, dq)) acc price =
      let ideal = quot (base *ℤ pos price) precise_unit in
      simp (bn_laws, precise_mul-value bn)
        (ground
          (arith, cancel_long acc ideal dq, cancel_short acc ideal dq, ideal_of_short base price))

module _ (bn : BigNumber) (js : Jsbi) (d : Deployment) (set_quantity : ℤ) where
  round-value :
      (acc : ℤ) (p : PositionUnitInfo) (price : ℕ)
      → get_spot_price js d p.base_token ≡ ok (pos price)
      → transfer_in_round bn js d set_quantity acc p
        ≡ map_result (λ flow. acc +ℤ flow) (quote_flow d set_quantity p)
  unfolding transfer_in_round
  round-value acc p price e =
      rw
        (
          precise_mul-value bn p.base_unit set_quantity,
          bn.gte_lem (quot (p.base_unit *ℤ set_quantity) precise_unit) (pos 0),
          bn.abs_lem (quot (p.base_unit *ℤ set_quantity) precise_unit),
          e,
        )
        (settle bn (quot (p.base_unit *ℤ set_quantity) precise_unit)
          (get_swap_quote d p.base_token
            (pos (nat_abs (quot (p.base_unit *ℤ set_quantity) precise_unit)))
            (leb_ℤ (pos 0) (quot (p.base_unit *ℤ set_quantity) precise_unit)))
          acc price)

  -- Where every position has a price that is not negative, the loop adds to what it starts from
  -- exactly the quotes of the swaps, less for a short: the ideal quote at the spot price cancels
  -- against the expected slippage. A quote that throws ends both alike.
  pub transfer_in-quote_flows :
      (acc : ℤ) (positions : List PositionUnitInfo)
      → Priced js d positions
      → transfer_in_from bn js d set_quantity acc positions
        ≡ map_result (λ flow. acc +ℤ flow) (quote_flows d set_quantity positions)
  unfolding transfer_in_from
  transfer_in-quote_flows acc [] h = ap ok (omega int_laws)
  transfer_in-quote_flows acc (p ∷ ps) h = rw (round-value acc p h.0.0 h.0.1) (
      chain (quote_flow d set_quantity p) (quote_flows d set_quantity ps) _ acc
        (λ x. transfer_in-quote_flows x ps h.1))
