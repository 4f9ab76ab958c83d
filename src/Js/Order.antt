-- ===== src/Js/Order.antt =====
-- The order of strings, and how decimal notation stands in it.
use set_protocol_v.Base.{
  ℕ, zero, suc, ◌+◌, ◌-◌, ◌*◌, ◌/◌, ◌%◌, ◌≤◌, ◌<◌, ◌≡◌, ◌≢◌, ◌↔◌, refl, true, false, ltb, ap, List,
  [], ◌∷◌, length, inl, inr, arith, Bool-cases,
}
use set_protocol_v.Js.{str_lt, str_eq, decimal, decimal_from}

pub str_lt_irrefl : (s : List ℕ) → str_lt s s ≡ false
unfolding str_lt
str_lt_irrefl [] = refl
str_lt_irrefl (a ∷ s) = ground (arith, str_lt_irrefl s)

pub str_lt_asymm : (s t : List ℕ) → str_lt s t ≡ true → str_lt t s ≡ false
unfolding str_lt
str_lt_asymm [] [] h = refl
str_lt_asymm [] (b ∷ t) h = refl
str_lt_asymm (a ∷ s) [] h = cc
str_lt_asymm (a ∷ s) (b ∷ t) h = ground (arith, str_lt_asymm s t)

not_below_empty : (s : List ℕ) → str_lt s [] ≢ true
unfolding str_lt
not_below_empty [] h = cc
not_below_empty (a ∷ s) h = cc

pub str_lt_trans : (s t u : List ℕ) → str_lt s t ≡ true → str_lt t u ≡ true → str_lt s u ≡ true
unfolding str_lt
str_lt_trans s [] u h k = absurd (not_below_empty s h)
str_lt_trans s (b ∷ t) [] h k = cc
str_lt_trans [] (b ∷ t) (c ∷ u) h k = refl
str_lt_trans (a ∷ s) (b ∷ t) (c ∷ u) h k = ground (arith, str_lt_trans s t u)

pub str_lt_total : (s t : List ℕ) → str_lt s t ≡ false → str_lt t s ≡ false → s ≡ t
unfolding str_lt
str_lt_total [] [] h k = refl
str_lt_total [] (b ∷ t) h k = cc
str_lt_total (a ∷ s) [] h k = cc
str_lt_total (a ∷ s) (b ∷ t) h k = ground (arith, str_lt_total s t)

pub str_eq_iff : (s t : List ℕ) → (str_eq s t ≡ true) ↔ (s ≡ t)
unfolding str_eq
str_eq_iff [] [] = (λ h. refl, λ h. refl)
str_eq_iff [] (b ∷ t) = (λ h. cc, λ h. cc)
str_eq_iff (a ∷ s) [] = (λ h. cc, λ h. cc)
str_eq_iff (a ∷ s) (b ∷ t) = ground (arith, str_eq_iff s t)

-- The first code units decide where they differ.
pub str_lt-first : (a b : ℕ) (s t : List ℕ) → a ≢ b → str_lt (a ∷ s) (b ∷ t) ≡ ltb a b
unfolding str_lt
str_lt-first a b s t h = ground arith

-- Decimal digits, and the number that a list of them denotes after a number that is read already.
abbrev pub Digits : List ℕ → Type 0
Digits [] = Unit
Digits (c ∷ s) = (b'0' ≤ c) × (c ≤ b'9') × Digits s

abbrev pub value_from : ℕ → List ℕ → ℕ
value_from acc [] = acc
value_from acc (c ∷ s) = value_from (acc * 10 + (c - b'0')) s

decimal_from-Digits : (fuel n : ℕ) (out : List ℕ) → Digits out → Digits (decimal_from fuel n out)
unfolding decimal_from
decimal_from-Digits zero n out d = d
decimal_from-Digits (suc fuel) n out d =
    ground (arith, decimal_from-Digits fuel (n / 10) ((b'0' + n % 10) ∷ out))

pub decimal-Digits : (n : ℕ) → Digits (decimal n)
unfolding decimal
decimal-Digits n = decimal_from-Digits (suc n) n [] tt

value_from-decimal_from :
    (fuel n : ℕ) (out : List ℕ)
    → n < fuel
    → value_from 0 (decimal_from fuel n out) ≡ value_from n out
unfolding decimal_from
value_from-decimal_from zero n out h = elim h [ ]
value_from-decimal_from (suc fuel) n out h = elim (Bool-cases (ltb n 10)) [
  | inl small ↦ rw small (ap (λ k. value_from k out) (ground arith))
  | inr big ↦ rw big (
      rw (value_from-decimal_from fuel (n / 10) ((b'0' + n % 10) ∷ out) (ground arith))
        (ap (λ k. value_from k out) (omega arith)))
]

-- Reading the notation back gives the number.
pub value-decimal : (n : ℕ) → value_from 0 (decimal n) ≡ n
unfolding decimal
value-decimal n = value_from-decimal_from (suc n) n [] (omega arith)

-- Of two numbers in as many digits the smaller one is written first.
value_lt :
    (s t : List ℕ) (a b : ℕ)
    → Digits s
    → Digits t
    → length s ≡ length t
    → a < b
    → value_from a s < value_from b t
value_lt [] [] a b ds dt e h = h
value_lt [] (d ∷ t) a b ds dt e h = absurd (omega arith)
value_lt (c ∷ s) [] a b ds dt e h = absurd (omega arith)
value_lt (c ∷ s) (d ∷ t) a b ds dt e h =
    value_lt s t _ _ ds.2 dt.2 (omega arith) (omega (arith, ds.0, ds.1, dt.0, dt.1))

pub str_lt_value :
    (s t : List ℕ) (a : ℕ)
    → Digits s
    → Digits t
    → length s ≡ length t
    → str_lt s t ≡ ltb (value_from a s) (value_from a t)
unfolding str_lt
str_lt_value [] [] a ds dt e = ground arith
str_lt_value [] (d ∷ t) a ds dt e = absurd (omega arith)
str_lt_value (c ∷ s) [] a ds dt e = absurd (omega arith)
str_lt_value (c ∷ s) (d ∷ t) a ds dt e = ground (
  arith,
  str_lt_value s t (a * 10 + (c - b'0')) ds.2 dt.2,
  value_lt s t (a * 10 + (c - b'0')) (a * 10 + (d - b'0')) ds.2 dt.2,
  value_lt t s (a * 10 + (d - b'0')) (a * 10 + (c - b'0')) dt.2 ds.2,
)

-- On numbers with the same count of digits the order of the notations is the order of the numbers.
pub str_lt-decimal :
    (m n : ℕ) → length (decimal m) ≡ length (decimal n) → str_lt (decimal m) (decimal n) ≡ ltb m n
str_lt-decimal m n h = rw (
  str_lt_value (decimal m) (decimal n) 0 (decimal-Digits m) (decimal-Digits n) h,
  value-decimal m,
  value-decimal n,
)

decimal_from_first :
    (fuel n : ℕ) (out : List ℕ)
    → n < fuel
    → 0 < n
    → (c : ℕ) × (s : List ℕ) × (decimal_from fuel n out ≡ c ∷ s) × (b'0' < c) × (c ≤ b'9')
unfolding decimal_from
decimal_from_first zero n out h p = absurd (omega arith)
decimal_from_first (suc fuel) n out h p = elim (Bool-cases (ltb n 10)) [
  | inl small ↦ (b'0' + n % 10, out, rw small, ground arith, omega arith)
  | inr big ↦
      rw big
        (decimal_from_first fuel (n / 10) ((b'0' + n % 10) ∷ out) (ground arith) (ground arith))
]

-- The notation of a positive number begins with a digit that is not `0`.
pub decimal_first :
    (n : ℕ) → 0 < n → (c : ℕ) × (s : List ℕ) × (decimal n ≡ c ∷ s) × (b'0' < c) × (c ≤ b'9')
unfolding decimal
decimal_first n h = decimal_from_first (suc n) n [] (omega arith) h
