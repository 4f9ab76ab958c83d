-- ===== src/AdapterData/Tests.antt =====
-- The theorem on adapter data, applied to an amount and an address.
use set_protocol_v.Base.{ℕ, ◌≡◌, refl, List, [], ◌∷◌, ◌++◌, length, arith}
use set_protocol_v.Base.Int.{ℤ, pos}
use set_protocol_v.AdapterData.{address_to_data, big_number_to_data, hex_value_from, data_words}

abbrev written : ℤ → List ℕ
written z = b'0' ∷ b'x' ∷ b'1' ∷ b'f' ∷ []

abbrev ten : List ℕ
ten = b'a' ∷ b'1' ∷ b'b' ∷ b'2' ∷ b'c' ∷ b'3' ∷ b'd' ∷ b'4' ∷ b'e' ∷ b'5' ∷ []

abbrev account : List ℕ
account = ten ++ ten ++ ten ++ ten

data_words_example :
    (length (big_number_to_data written (pos 31)) ≡ 64)
    × (hex_value_from 0 (big_number_to_data written (pos 31)) ≡ 31)
    × (length (address_to_data (b'0' ∷ b'x' ∷ account)) ≡ 64)
    × (hex_value_from 0 (address_to_data (b'0' ∷ b'x' ∷ account)) ≡ hex_value_from 0 account)
data_words_example = data_words written 31 (b'1' ∷ b'f' ∷ []) account refl refl (omega arith) refl
