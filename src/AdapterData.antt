-- ===== src/AdapterData.antt =====
-- utils/common/adapterUtils.ts: addresses and amounts as words of adapter data. The hash of an
-- adapter's name is ethers' alone.
mod Tests
use set_protocol_v.Base.{
  ℕ, zero, suc, ◌+◌, ◌-◌, ◌*◌, ◌≤◌, ◌≡◌, refl, ◌∙◌, ◌&&◌, ◌==◌, leb, if◌then◌else◌, List, [], ◌∷◌,
  ◌++◌, length, length-append, arith,
}
use set_protocol_v.Base.Int.{ℤ, pos}
use set_protocol_v.Contracts.{Address}

-- `s.replace("0x", by)`: the first occurrence only.
unfoldable pub replace_prefix : List ℕ → List ℕ → List ℕ
replace_prefix by [] = []
replace_prefix by (c ∷ []) = c ∷ []
replace_prefix by (c ∷ d ∷ s) =
    let later = c ∷ replace_prefix by (d ∷ s) in if c == b'0' && d == b'x' then by ++ s else later

abbrev zeros : ℕ → List ℕ
zeros zero = []
zeros (suc n) = b'0' ∷ zeros n

-- `s.padStart(n, "0")`
abbrev pad_start : ℕ → List ℕ → List ℕ
pad_start n s = zeros (n - length s) ++ s

-- `addressToData`
unfoldable pub address_to_data : Address → List ℕ
unfolding replace_prefix
address_to_data address = replace_prefix (zeros 24) address

-- `bigNumberToData`; `to_hex_string` is ethers' `toHexString`.
unfoldable pub big_number_to_data : (ℤ → List ℕ) → ℤ → List ℕ
unfolding replace_prefix
big_number_to_data to_hex_string number = pad_start 64 (replace_prefix [] (to_hex_string number))

-- The value of a digit of hexadecimal notation, and of digits after a value.
abbrev hex_digit : ℕ → ℕ
hex_digit c = if leb b'a' c then c - b'a' + 10 else if leb b'A' c then c - b'A' + 10 else c - b'0'

abbrev pub hex_value_from : ℕ → List ℕ → ℕ
hex_value_from n [] = n
hex_value_from n (c ∷ s) = hex_value_from (16 * n + hex_digit c) s

hex_value_from-zeros : (k : ℕ) (s : List ℕ) → hex_value_from 0 (zeros k ++ s) ≡ hex_value_from 0 s
hex_value_from-zeros zero s = refl
hex_value_from-zeros (suc k) s = hex_value_from-zeros k s

length-zeros : (k : ℕ) → length (zeros k) ≡ k
length-zeros zero = refl
length-zeros (suc k) = omega (arith, length-zeros k)

-- If `toHexString` writes a number as "0x" and at most 64 digits of its value, `bigNumberToData` is a
-- word of 64 digits with the same value; and the data of an address of 40 digits is a word of 64
-- digits with the value of the address.
pub data_words :
    (to_hex_string : ℤ → List ℕ) (n : ℕ) (digits account : List ℕ)
    → to_hex_string (pos n) ≡ b'0' ∷ b'x' ∷ digits
    → hex_value_from 0 digits ≡ n
    → length digits ≤ 64
    → length account ≡ 40
    → (length (big_number_to_data to_hex_string (pos n)) ≡ 64)
      × (hex_value_from 0 (big_number_to_data to_hex_string (pos n)) ≡ n)
      × (length (address_to_data (b'0' ∷ b'x' ∷ account)) ≡ 64)
      × (hex_value_from 0 (address_to_data (b'0' ∷ b'x' ∷ account)) ≡ hex_value_from 0 account)
unfolding big_number_to_data address_to_data replace_prefix
data_words to_hex_string n digits account written value short forty = rw written (
  length-append (zeros (64 - length digits)) digits
      ∙ omega (arith, length-zeros (64 - length digits)),
  hex_value_from-zeros (64 - length digits) digits ∙ value,
  length-append (zeros 24) account ∙ omega (arith, forty),
  hex_value_from-zeros 24 account,
)
