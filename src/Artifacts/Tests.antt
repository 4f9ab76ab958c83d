-- ===== src/Artifacts/Tests.antt =====
-- Runs on a small ABI: a method, and an event with a field of the same name.
use set_protocol_v.Base.{
  ◌≡◌, refl, false, List, [], ◌∷◌, none, some, ok, err, numeric_fault, ◌⊎◌, inl, inr,
}
use set_protocol_v.Base.Int.{ℤ, pos, ◌-ℤ◌}
use set_protocol_v.Js.{str_eq, decimal}
use set_protocol_v.Ethers.{exact, exact_to_string, whole, other, is_safe}
use set_protocol_v.Artifacts.{
  AbiElement, function_name, gas_limit, add_gas_to_abi_methods, remove_gas_from_abi_methods,
}
use set_protocol_v.Artifacts.Gas.{EachHasGas, remove_gas-add_gas}

abbrev method : AbiElement
method = record { type_name = function_name; gas = none; others = [] }

abbrev event : AbiElement
event = record { type_name = b'e' ∷ []; gas = some (b'1' ∷ []); others = [] }

event_is_no_function : str_eq event.type_name function_name ≡ false
unfolding str_eq
event_is_no_function = refl

abbrev small_abi : List AbiElement
small_abi = method ∷ event ∷ []

adds_to_methods_only :
    add_gas_to_abi_methods exact exact_to_string false
      (whole (pos 0))
      (whole (pos 1_000_007))
      small_abi
    ≡ ok (record method { gas = some (b'7' ∷ []) } ∷ event ∷ [])
unfolding add_gas_to_abi_methods gas_limit str_eq decimal ◌-ℤ◌
adds_to_methods_only = refl

-- A network of hardhat.config.ts without `gas`, as kovan.
auto_throws :
    add_gas_to_abi_methods exact exact_to_string false (whole (pos 0)) other small_abi
    ≡ err numeric_fault
unfolding add_gas_to_abi_methods gas_limit
auto_throws = refl

remove_gas-add_gas_example :
    ((is_safe (whole (pos 12_000_000)) ≡ false)
      × (add_gas_to_abi_methods exact exact_to_string false other (whole (pos 12_000_000)) small_abi
          ≡ err numeric_fault))
    ⊎ ((gas : ℤ) × (out : List AbiElement) × (whole (pos 12_000_000) ≡ whole gas)
        × (add_gas_to_abi_methods exact exact_to_string false other
              (whole (pos 12_000_000))
              small_abi
            ≡ ok out)
        × EachHasGas (exact_to_string (gas -ℤ pos 1_000_000)) out
        × (remove_gas_from_abi_methods out ≡ small_abi))
remove_gas-add_gas_example =
    remove_gas-add_gas exact exact_to_string false other (whole (pos 12_000_000)) small_abi
      (inr refl, (inl event_is_no_function, tt))
