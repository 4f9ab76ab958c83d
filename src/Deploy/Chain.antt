-- ===== src/Deploy/Chain.antt =====
-- What the classes of utils/deploys act on: the chain, as the transactions of the signer
-- `_deployerSigner` leave it, and the generated factories and instances. The chain and ethers are not
-- in the repository, so which address a contract gets and which transactions go through are
-- parameters (`Network`).
use set_protocol_v.Base.{
  ℕ, suc, String, Bool, List, ◌∷◌, Option, none, some, Result, ok, err, reverted, map_result,
  if◌then◌else◌,
}
use set_protocol_v.Base.Int.{ℤ, pos}
use set_protocol_v.Contracts.{Address}

-- An argument of a constructor or of a method. `Bytes` of utils/types.ts is a string.
pub data Value : Type 0 where
  address : Address → Value
  addresses : List Address → Value
  number : ℤ → Value
  numbers : List ℤ → Value
  text : String → Value
  texts : List String → Value
  flag : Bool → Value

-- A creation has the contract, the addresses of the libraries that its bytecode is linked with, and
-- the arguments of the constructor; a call has the target, the method, the arguments and the
-- value that is sent along.
pub data Transaction : Type 0 where
  creation : String → List (String × Address) → List Value → Transaction
  call : Address → String → List Value → ℤ → Transaction
  -- the same, from another account
  call_from : Address → Address → String → List Value → Transaction

-- The signer's nonce, and its transactions, the last one first.
pub record World : Type 0 where
  pub nonce : ℕ
  pub log : List Transaction

-- The address of a contract is a function of its creator and the creator's nonce; a view
-- answers with an address, three, or a number in the world of the moment, or reverts.
pub record Network : Type 0 where
  pub create_address : Address → ℕ → Address
  pub accepts : World → Transaction → Bool
  pub view : World → Address → String → List Value → Result Address
  pub view_number : World → Address → String → List Value → Result ℕ
  pub view_three : World → Address → String → List Value → Result (Address × Address × Address)

-- A typed instance: the contract whose interface it offers, and its address.
pub record Instance : Type 0 where
  pub contract : String
  pub address : Address

-- A function that sends transactions and may be rejected.
abbrev pub Action : Type 0 → Type 0
Action A = World → Result (A × World)

abbrev pub pure : {A : Type 0} → A → Action A
pure value w = ok (value, w)

infixl 5 ◌>>=◌ ◌>>◌
abbrev pub ◌>>=◌ : {A B : Type 0} → Action A → (A → Action B) → Action B
◌>>=◌ first rest w = elim (first w) [
  | err thrown ↦ err thrown
  | ok (value, after) ↦ rest value after
]

abbrev pub ◌>>◌ : {A B : Type 0} → Action A → Action B → Action B
◌>>◌ first rest w = elim (first w) [ err thrown ↦ err thrown | ok (_, after) ↦ rest after ]

-- A parameter with a default, where the caller may leave it out.
abbrev pub or_default : {A : Type 0} → Option A → A → A
or_default none preset = preset
or_default (some given) preset = given

-- What throws without a transaction.
abbrev pub lift : {A : Type 0} → Result A → Action A
lift result w = map_result (λ value. (value, w)) result

module _ (net : Network) (signer : Address) where
  -- The world after a transaction that goes through, or the rejection.
  abbrev pub send : {A : Type 0} → Transaction → A → Action A
  send transaction answer w =
      if net.accepts w transaction
      then ok (answer, record { nonce = suc w.nonce; log = transaction ∷ w.log })
      else err reverted

  -- `new C__factory(links, signer).deploy(arguments)`
  unfoldable pub deploy : String → List (String × Address) → List Value → Action Instance
  deploy contract links arguments w =
      send (creation contract links arguments)
        (record { contract = contract; address = net.create_address signer w.nonce }) w

  -- A method of an instance that changes the chain, with the value that is sent along.
  unfoldable pub invoke : Instance → String → List Value → ℤ → Action (Unit {0})
  invoke instance_of method arguments sent =
      send (call instance_of.address method arguments sent) tt

  -- A call that is not awaited: it is sent, and its rejection is not seen.
  unfoldable pub invoke_detached : Instance → String → List Value → Action (Unit {0})
  invoke_detached instance_of method arguments w =
      let transaction = call instance_of.address method arguments (pos 0) in
      if net.accepts w transaction
      then ok (tt, record { nonce = suc w.nonce; log = transaction ∷ w.log })
      else ok (tt, w)

  -- A call of a method through `connect(wallet)`; the nonce that it takes is another account's.
  unfoldable pub invoke_as : Address → Instance → String → List Value → Action (Unit {0})
  invoke_as sender instance_of method arguments w =
      let transaction = call_from sender instance_of.address method arguments in
      if net.accepts w transaction
      then ok (tt, record w { log = transaction ∷ w.log })
      else err reverted

  -- A call of a view that answers with an address.
  unfoldable pub ask : Instance → String → List Value → Action Address
  ask instance_of method arguments w =
      map_result (λ a. (a, w)) (net.view w instance_of.address method arguments)

  -- The same for a view that answers with a number.
  unfoldable pub ask_number : Instance → String → List Value → Action ℕ
  ask_number instance_of method arguments w =
      map_result (λ n. (n, w)) (net.view_number w instance_of.address method arguments)

  -- The same for a view that answers with three addresses.
  unfoldable pub ask_three : Instance → String → List Value → Action (Address × Address × Address)
  ask_three instance_of method arguments w =
      map_result (λ three. (three, w)) (net.view_three w instance_of.address method arguments)

-- `new C__factory(signer).attach(address)`, which does not look at the chain.
abbrev pub attach : String → Address → Instance
attach contract at = record { contract = contract; address = at }
