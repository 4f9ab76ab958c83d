-- ===== src/Artifacts.antt =====
-- utils/tasks/artifactUtils.ts: the `gas` field that the build writes into the methods of an ABI, and
-- takes out of the external ABIs again.
pub mod Gas
mod Tests
use set_protocol_v.Base.{
  Bool, if◌then◌else◌, List, [], ◌∷◌, ◌++◌, Option, none, some, ℕ, Result, ok, ◌>>=◌,
}
use set_protocol_v.Base.Int.{ℤ, pos}
use set_protocol_v.Js.{str_eq}
use set_protocol_v.Ethers.{BigNumber, Numeric}

-- An entry of an ABI: its `type`, its `gas` where it has one, and the other fields with what they hold
-- in JSON. Strings are lists of code units.
pub record AbiElement : Type 0 where
  pub type_name : List ℕ
  pub gas : Option (List ℕ)
  pub others : List (List ℕ × List ℕ)

abbrev pub function_name : List ℕ
function_name = b'f' ∷ b'u' ∷ b'n' ∷ b'c' ∷ b't' ∷ b'i' ∷ b'o' ∷ b'n' ∷ []

-- The gas of the network, or that of the coverage tool where `COVERAGE` is "true", one million less,
-- in the notation of ethers' `toHexString`, a parameter. What the configuration holds may be no
-- number: the gas of a network that does not set it is "auto".
unfoldable pub gas_limit : BigNumber → (ℤ → List ℕ) → Bool → Numeric → Numeric → Result (List ℕ)
gas_limit bn to_hex_string coverage coverage_gas network_gas = do
  gas ← bn.from_number (if coverage then coverage_gas else network_gas)
  ok (to_hex_string (bn.sub gas (pos 1_000_000)))

-- The loop of `addGasToAbiMethods`, from what is pushed already.
unfoldable pub add_gas_from : List AbiElement → List ℕ → List AbiElement → List AbiElement
add_gas_from modified_abi limit [] = modified_abi
add_gas_from modified_abi limit (abi_element ∷ abi) =
    add_gas_from
      (modified_abi
        ++ (if str_eq abi_element.type_name function_name
            then record abi_element { gas = some limit }
            else abi_element)
          ∷ [])
      limit abi

unfoldable pub add_gas_to_abi_methods :
    BigNumber → (ℤ → List ℕ) → Bool → Numeric → Numeric → List AbiElement → Result (List AbiElement)
unfolding gas_limit add_gas_from
add_gas_to_abi_methods bn to_hex_string coverage coverage_gas network_gas abi = do
  limit ← gas_limit bn to_hex_string coverage coverage_gas network_gas
  ok (add_gas_from [] limit abi)

-- The loop of `removeGasFromAbiMethods`, from what is pushed already; the elements are changed in
-- place, and pushed.
unfoldable pub remove_gas_from : List AbiElement → List AbiElement → List AbiElement
remove_gas_from modified_abi [] = modified_abi
remove_gas_from modified_abi (abi_element ∷ abi) =
    remove_gas_from
      (modified_abi
        ++ (if str_eq abi_element.type_name function_name
            then record abi_element { gas = none }
            else abi_element)
          ∷ [])
      abi

unfoldable pub remove_gas_from_abi_methods : List AbiElement → List AbiElement
unfolding remove_gas_from
remove_gas_from_abi_methods abi = remove_gas_from [] abi
