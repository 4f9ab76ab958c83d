-- ===== src/Protocol.antt =====
-- utils/common/protocolUtils.ts and utils/common/libraryUtils.ts: the address of a SetToken that a
-- transaction has created, positions, and the link ids of libraries.
mod Tests
use set_protocol_v.Base.{
  ℕ, zero, suc, Bool, true, false, ◌&&◌, ◌||◌, ◌==◌, if◌then◌else◌, List, [], ◌∷◌, ◌++◌, Option,
  none, some, Result, ok, err, invalid_transaction_hash, transaction_failed, unqualified_name,
  type_error, ◌>>=◌,
}
use set_protocol_v.Base.Int.{ℤ, pos}
use set_protocol_v.Contracts.{Address}

-- The chain that a provider answers for: the status of the receipt of a transaction, and the logs of
-- the latest block with the topic of `SetTokenCreated`; and ethers' decoding of such a log.
pub record Provider (Log : Type 0) : Type 0 where
  pub wait_for_transaction : List ℕ → Result Bool
  pub set_token_created_logs : Result (List Log)
  pub parse_set_token : Log → Result Address

-- `logs[logs.length - 1]`
abbrev last_log : {Log : Type 0} → List Log → Option Log
last_log [] = none
last_log (log ∷ []) = some log
last_log (log ∷ next ∷ logs) = last_log (next ∷ logs)

-- `!txnHash` holds for undefined and for the empty string.
abbrev given_hash : Option (List ℕ) → Option (List ℕ)
given_hash none = none
given_hash (some []) = none
given_hash (some (c ∷ hash)) = some (c ∷ hash)

-- `parseLog` of undefined reads its properties, and throws.
unfoldable pub get_created_set_token_address :
    {Log : Type 0} → Provider Log → Option (List ℕ) → Result Address
get_created_set_token_address provider txn_hash = elim (given_hash txn_hash) [
  | none ↦ err invalid_transaction_hash
  | some hash ↦ do
    status ← provider.wait_for_transaction hash
    let parsed = (do
      logs ← provider.set_token_created_logs
      elim (last_log logs) [ none ↦ err type_error | some log ↦ provider.parse_set_token log ])
    if status then parsed else err transaction_failed
]

-- `Position` of utils/types.ts; `positionState` is 0 for a default and 1 for an external position.
pub record Position : Type 0 where
  pub component : Address
  pub position_module : Address
  pub unit : ℤ
  pub position_state : ℕ
  pub data_bytes : List ℕ

-- `AddressZero` is a parameter; `EMPTY_BYTES` is "0x".
unfoldable get_default_position : Address → Address → ℤ → Position
get_default_position address_zero component unit = record {
  component = component;
  position_module = address_zero;
  unit = unit;
  position_state = 0;
  data_bytes = b'0' ∷ b'x' ∷ [];
}

unfoldable get_external_position : Address → Address → ℤ → List ℕ → Position
get_external_position component position_module unit data_bytes = record {
  component = component;
  position_module = position_module;
  unit = unit;
  position_state = 1;
  data_bytes = data_bytes;
}

-- `s.includes(c)` for a string of one code unit.
abbrev includes : ℕ → List ℕ → Bool
includes c [] = false
includes c (d ∷ s) = d == c || includes c s

-- `s.slice(n)` and `s.slice(0, n)`
abbrev pub slice_from : ℕ → List ℕ → List ℕ
slice_from zero s = s
slice_from (suc n) [] = []
slice_from (suc n) (c ∷ s) = slice_from n s

abbrev slice_to : ℕ → List ℕ → List ℕ
slice_to zero s = []
slice_to (suc n) [] = []
slice_to (suc n) (c ∷ s) = c ∷ slice_to n s

-- `keccak` is ethers' hash of the bytes of a string, in hexadecimal notation behind "0x"; the path
-- separator is the one of the platform.
unfoldable pub convert_library_name_to_link_id : (List ℕ → List ℕ) → ℕ → List ℕ → Result (List ℕ)
convert_library_name_to_link_id keccak separator library_name =
    if includes separator library_name && includes b':' library_name
    then ok (
        b'_' ∷ b'_' ∷ b'$' ∷ slice_to 34 (slice_from 2 (keccak library_name))
        ++ b'$' ∷ b'_' ∷ b'_' ∷ [])
    else err unqualified_name
