-- ===== src/System/Distinct.antt =====
-- The contracts of utils/fixtures/systemFixture.ts stand at addresses of their own.
use set_protocol_v.Base.{
  ℕ, zero, suc, ◌+◌, ◌≤◌, ◌<◌, ◌≡◌, ◌≢◌, refl, Bool, true, false, ◌&&◌, ltb, List, [], ◌∷◌, map,
  some, get_elem?, ok, arith,
}
use set_protocol_v.Contracts.{Address}
use set_protocol_v.Deploy.Chain.{Network, World}
use set_protocol_v.System.Fixture.{SystemFixture, initialize}
use set_protocol_v.Deploy.Accepted.{later, AcceptsAll}
use set_protocol_v.System.History.{placed_fixture, initialize_history}
use set_protocol_v.System.Controller.Arrays.{contains}
use set_protocol_v.System.Handover.{str_eq-different}

-- No address occurs twice.
abbrev pub IsDistinct : List Address → Type 0
IsDistinct [] = Unit
IsDistinct (a ∷ rest) = (contains a rest ≡ false) × IsDistinct rest

-- The contracts that the fixture has deployed.
abbrev pub contracts_of : SystemFixture → List Address
contracts_of f =
    f.controller.address ∷ f.issuance_module.address ∷ f.components.weth.address
    ∷ f.components.usdc.address ∷ f.components.wbtc.address ∷ f.components.dai.address
    ∷ f.components.eth_usd_oracle.address ∷ f.components.usd_usd_oracle.address
    ∷ f.components.btc_usd_oracle.address ∷ f.components.dai_usd_oracle.address ∷ f.factory.address
    ∷ f.price_oracle.address ∷ f.integration_registry.address ∷ f.set_valuer.address
    ∷ f.streaming_fee_module.address ∷ f.nav_issuance_module.address ∷ []

-- The offsets grow, from above the first.
abbrev growing : ℕ → List ℕ → Bool
growing k [] = true
growing k (j ∷ js) = ltb k j && growing j js

later_lem : (k n : ℕ) → later k n ≡ k + n
later_lem zero n = omega arith
later_lem (suc k) n = omega (arith, later_lem k n)

growing-parts :
    (k j : ℕ) (js : List ℕ) → growing k (j ∷ js) ≡ true → (k < j) × (growing j js ≡ true)
growing-parts k j js h = ground arith

module _ (net : Network) (owner : Address)
    (injective : (j k : ℕ) → net.create_address owner j ≡ net.create_address owner k → j ≡ k)
    (n : ℕ) where
  abbrev at : ℕ → Address
  at k = net.create_address owner (later k n)

  at-different : (i j : ℕ) → i < j → at i ≢ at j
  at-different i j lt same = omega (arith, lt, injective _ _ same, later_lem i n, later_lem j n)

  contains-growing :
      (i k : ℕ) (js : List ℕ) → i ≤ k → growing k js ≡ true → contains (at i) (map at js) ≡ false
  contains-growing i k [] le h = refl
  contains-growing i k (j ∷ js) le h =
      let (lt, rest) = growing-parts k j js h in
      rw (str_eq-different _ _ (at-different i j (omega (arith, le, lt))))
        (contains-growing i j js (omega (arith, le, lt)) rest)

  growing-IsDistinct : (k : ℕ) (js : List ℕ) → growing k js ≡ true → IsDistinct (map at (k ∷ js))
  growing-IsDistinct k [] h = (refl, tt)
  growing-IsDistinct k (j ∷ js) h = (
    contains-growing k k (j ∷ js) (omega arith) h,
    growing-IsDistinct j js (growing-parts k j js h).1,
  )

  placed_fixture-IsDistinct :
      (fee_recipient : Address)
      → IsDistinct (contracts_of (placed_fixture net owner fee_recipient n))
  placed_fixture-IsDistinct fee_recipient =
      growing-IsDistinct 0 (1 ∷ 2 ∷ 3 ∷ 4 ∷ 5 ∷ 6 ∷ 7 ∷ 8 ∷ 9 ∷ 15 ∷ 16 ∷ 17 ∷ 18 ∷ 19 ∷ 20 ∷ [])
        refl

-- If every transaction goes through, there is a fourth account, and the owner's creations at
-- different nonces get different addresses: `initialize` returns a fixture no two of whose
-- sixteen contracts have the same address.
pub initialize-IsDistinct :
    (net : Network) (owner : Address)
    → ((j k : ℕ) → net.create_address owner j ≡ net.create_address owner k → j ≡ k)
    → AcceptsAll net
    → (accounts : List Address) (fee_recipient : Address) (w : World)
    → get_elem? accounts 3 ≡ some fee_recipient
    → (f : SystemFixture) × (end : World) × (initialize net owner accounts w ≡ ok (f, end))
      × IsDistinct (contracts_of f)
initialize-IsDistinct net owner injective all accounts fee_recipient w fourth = (
  _,
  _,
  initialize_history net all owner accounts fee_recipient w fourth,
  placed_fixture-IsDistinct net owner injective w.nonce fee_recipient,
)
