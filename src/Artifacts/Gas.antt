-- ===== src/Artifacts/Gas.antt =====
-- utils/tasks/artifactUtils.ts: the gas that is added is taken out again.
use set_protocol_v.Base.{
  ℕ, ◌≡◌, refl, sym, ap, ◌∙◌, Bool, true, false, ok, err, numeric_fault, ◌⊎◌, if◌then◌else◌,
  Bool-cases, inl, inr, List, [], ◌∷◌, ◌++◌, map, append_assoc, append-nil, Option, none, some,
}
use set_protocol_v.Base.Int.{ℤ, pos, ◌-ℤ◌}
use set_protocol_v.Js.{str_eq}
use set_protocol_v.Ethers.{BigNumber, Numeric, whole, other, is_safe}
use set_protocol_v.Artifacts.{
  AbiElement, function_name, gas_limit, add_gas_from, add_gas_to_abi_methods, remove_gas_from,
  remove_gas_from_abi_methods,
}

-- What the two loops do to an element.
abbrev set_gas : Option (List ℕ) → AbiElement → AbiElement
set_gas gas e = if str_eq e.type_name function_name then record e { gas = gas } else e

-- No method has a `gas` field.
abbrev pub HasNoGas : List AbiElement → Type 0
HasNoGas [] = Unit
HasNoGas (e ∷ abi) = ((str_eq e.type_name function_name ≡ false) ⊎ (e.gas ≡ none)) × HasNoGas abi

-- Every method has the `gas` field that is given.
abbrev pub EachHasGas : List ℕ → List AbiElement → Type 0
EachHasGas limit [] = Unit
EachHasGas limit (e ∷ abi) =
    ((str_eq e.type_name function_name ≡ false) ⊎ (e.gas ≡ some limit)) × EachHasGas limit abi

add_gas_from_lem :
    (out : List AbiElement) (limit : List ℕ) (abi : List AbiElement)
    → add_gas_from out limit abi ≡ out ++ map (set_gas (some limit)) abi
unfolding add_gas_from
add_gas_from_lem out limit [] = sym (append-nil out)
add_gas_from_lem out limit (e ∷ abi) =
    add_gas_from_lem (out ++ set_gas (some limit) e ∷ []) limit abi
    ∙ append_assoc out (set_gas (some limit) e ∷ []) (map (set_gas (some limit)) abi)

remove_gas_from_lem :
    (out abi : List AbiElement) → remove_gas_from out abi ≡ out ++ map (set_gas none) abi
unfolding remove_gas_from
remove_gas_from_lem out [] = sym (append-nil out)
remove_gas_from_lem out (e ∷ abi) =
    remove_gas_from_lem (out ++ set_gas none e ∷ []) abi
    ∙ append_assoc out (set_gas none e ∷ []) (map (set_gas none) abi)

set_gas-set_gas :
    (e : AbiElement) (g : List ℕ)
    → (str_eq e.type_name function_name ≡ false) ⊎ (e.gas ≡ none)
    → set_gas none (set_gas (some g) e) ≡ e
set_gas-set_gas e g (inl not_function) = rw (not_function, not_function) refl
set_gas-set_gas e g (inr h) = elim (Bool-cases (str_eq e.type_name function_name)) [
  | inl is_function ↦ rw (is_function, is_function, h) refl
  | inr not_function ↦ rw (not_function, not_function) refl
]

map-set_gas-EachHasGas :
    (limit : List ℕ) (abi : List AbiElement) → EachHasGas limit (map (set_gas (some limit)) abi)
map-set_gas-EachHasGas limit [] = tt
map-set_gas-EachHasGas limit (e ∷ abi) = (
  elim (Bool-cases (str_eq e.type_name function_name)) [
    | inl is_function ↦ inr (rw is_function refl)
    | inr not_function ↦ inl (rw not_function not_function)
  ],
  map-set_gas-EachHasGas limit abi,
)

map-set_gas :
    (abi : List AbiElement) (g : List ℕ)
    → HasNoGas abi
    → map (set_gas none) (map (set_gas (some g)) abi) ≡ abi
map-set_gas [] g h = refl
map-set_gas (e ∷ abi) g (h, rest) = rw (set_gas-set_gas e g h, map-set_gas abi g rest)

numeric_cases :
    (v : Numeric) → (is_safe v ≡ false) ⊎ ((n : ℤ) × (v ≡ whole n) × (is_safe (whole n) ≡ true))
numeric_cases other = inl refl
numeric_cases (whole n) = elim (Bool-cases (is_safe (whole n))) [
  | inl safe ↦ inr (n, refl, safe)
  | inr refused ↦ inl refused
]

remove_gas_lem : (abi : List AbiElement) → remove_gas_from_abi_methods abi ≡ map (set_gas none) abi
unfolding remove_gas_from_abi_methods
remove_gas_lem abi = remove_gas_from_lem [] abi

module _ (bn : BigNumber) (to_hex_string : ℤ → List ℕ) (coverage : Bool)
    (coverage_gas network_gas : Numeric) (abi : List AbiElement) where
  add_gas_refused :
      is_safe (if coverage then coverage_gas else network_gas) ≡ false
      → add_gas_to_abi_methods bn to_hex_string coverage coverage_gas network_gas abi
        ≡ err numeric_fault
  unfolding add_gas_to_abi_methods gas_limit
  add_gas_refused refused = rw (bn.from_number_refused _ refused) refl

  add_gas_lem :
      (gas : ℤ)
      → (if coverage then coverage_gas else network_gas) ≡ whole gas
      → is_safe (whole gas) ≡ true
      → add_gas_to_abi_methods bn to_hex_string coverage coverage_gas network_gas abi
        ≡ ok (map (set_gas (some (to_hex_string (gas -ℤ pos 1_000_000)))) abi)
  unfolding add_gas_to_abi_methods gas_limit
  add_gas_lem gas e safe =
      rw (e, bn.from_number_safe gas safe, bn.sub_lem gas (pos 1_000_000))
        (ap ok (add_gas_from_lem [] (to_hex_string (gas -ℤ pos 1_000_000)) abi))

-- On an ABI of which no method has a `gas` field: where the gas of the network, or of the coverage
-- tool, is no whole number below 2^53 - 1 in size, as "auto" is none, adding the gas throws. Where it
-- is, every method of the result has the gas less one million, and removing it gives the ABI back.
pub remove_gas-add_gas :
    (bn : BigNumber) (to_hex_string : ℤ → List ℕ) (coverage : Bool)
    (coverage_gas network_gas : Numeric) (abi : List AbiElement)
    → HasNoGas abi
    → ((is_safe (if coverage then coverage_gas else network_gas) ≡ false)
        × (add_gas_to_abi_methods bn to_hex_string coverage coverage_gas network_gas abi
            ≡ err numeric_fault))
      ⊎ ((gas : ℤ) × (out : List AbiElement) × ((if coverage then coverage_gas else network_gas)
            ≡ whole gas)
          × (add_gas_to_abi_methods bn to_hex_string coverage coverage_gas network_gas abi ≡ ok out)
          × EachHasGas (to_hex_string (gas -ℤ pos 1_000_000)) out
          × (remove_gas_from_abi_methods out ≡ abi))
remove_gas-add_gas bn to_hex_string coverage coverage_gas network_gas abi h =
    elim (numeric_cases (if coverage then coverage_gas else network_gas)) [
      | inl refused ↦
          inl (
            refused,
            add_gas_refused bn to_hex_string coverage coverage_gas network_gas abi refused,
          )
      | inr (gas, e, safe) ↦
          let limit = to_hex_string (gas -ℤ pos 1_000_000) in
          inr (
            gas,
            map (set_gas (some limit)) abi,
            e,
            add_gas_lem bn to_hex_string coverage coverage_gas network_gas abi gas e safe,
            map-set_gas-EachHasGas limit abi,
            remove_gas_lem (map (set_gas (some limit)) abi) ∙ map-set_gas abi limit h,
          )
    ]
