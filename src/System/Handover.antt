-- ===== src/System/Handover.antt =====
-- What the controller holds after the fixture's last transaction: contracts/protocol/Controller.sol
-- run on the arguments that utils/fixtures/systemFixture.ts sends.
use set_protocol_v.Base.{
  ℕ, zero, ◌≤◌, if◌then◌else◌, ◌≡◌, ◌≢◌, refl, Bool, true, false, List, [], ◌∷◌, map, Result, ok,
  err, reverted, arith, Option, none, some, get_elem?,
}
use text.Mathlib.Text.{◌==◌}
use set_protocol_v.Base.Int.{pos, nat_abs}
use set_protocol_v.Js.{str_eq}
use set_protocol_v.Js.Order.{str_eq_iff}
use set_protocol_v.Contracts.{Address}
use set_protocol_v.Deploy.Chain.{
  Network, World, Transaction, creation, call, call_from, addresses, numbers,
}
use set_protocol_v.System.Controller.Arrays.{contains, str_eq_refl}
use set_protocol_v.System.Controller.{
  Controller, initialize_controller, mark, assign, mark_all, register_resources,
}
use set_protocol_v.System.Fixture.{SystemFixture, initialize}
use set_protocol_v.Deploy.Accepted.{AcceptsAll}
use set_protocol_v.System.History.{placed_fixture, handover, initialize_history}

-- What a transaction of `sender` does to the controller's storage, if it is a call of `initialize`
-- without ether; any other is refused here.
abbrev pub run_initialize : Address → Address → Transaction → Controller → Result Controller
run_initialize zero_address sender
      (call _ method (addresses f ∷ addresses m ∷ addresses r ∷ numbers ids ∷ []) (pos zero)) c =
    let run = initialize_controller zero_address sender f m r (map nat_abs ids) c in
    if method == "initialize" then run else err reverted
run_initialize zero_address sender _ c = err reverted

-- The contract that a transaction calls.
abbrev pub target_of : Transaction → Option Address
target_of (creation _ _ _) = none
target_of (call target _ _ _) = some target
target_of (call_from _ target _ _) = some target

-- A controller as its constructor leaves it: nothing is registered.
pub record IsFresh (zero_address owner : Address) (c : Controller) : Type 0 where
  pub same_owner : c.owner ≡ owner
  pub not_initialized : c.is_initialized ≡ false
  pub no_factory : (a : Address) → c.is_factory a ≡ false
  pub no_module : (a : Address) → c.is_module a ≡ false
  pub no_resource : (a : Address) → c.is_resource a ≡ false
  pub no_id : (i : ℕ) → c.resource_id i ≡ zero_address

not_true : (b : Bool) → b ≢ true → b ≡ false
not_true false h = refl
not_true true h = absurd (h refl)

pub str_eq-different : (s t : Address) → s ≢ t → str_eq s t ≡ false
str_eq-different s t h = not_true (str_eq s t) λ e. h ((str_eq_iff s t).0 e)

-- What `initialize` leaves on a fresh controller whose storage was `before`.
pub record IsHandedOver (zero_address : Address) (before : Controller) (f : SystemFixture)
    (c : Controller) : Type 0 where
  pub factory_list : c.factories ≡ f.factory.address ∷ []
  pub module_list :
      c.modules
      ≡ f.issuance_module.address ∷ f.streaming_fee_module.address ∷ f.nav_issuance_module.address
        ∷ []
  pub resource_list :
      c.resources
      ≡ f.integration_registry.address ∷ f.price_oracle.address ∷ f.set_valuer.address ∷ []
  pub is_initialized : c.is_initialized ≡ true
  pub factory : (a : Address) → c.is_factory a ≡ contains a (f.factory.address ∷ [])
  pub modules :
      (a : Address)
      → c.is_module a
        ≡ contains a (
            f.issuance_module.address ∷ f.streaming_fee_module.address
            ∷ f.nav_issuance_module.address ∷ [])
  pub resources :
      (a : Address)
      → c.is_resource a
        ≡ contains a
            (f.integration_registry.address ∷ f.price_oracle.address ∷ f.set_valuer.address ∷ [])
  pub registry_id : c.resource_id 0 ≡ f.integration_registry.address
  pub oracle_id : c.resource_id 1 ≡ f.price_oracle.address
  pub valuer_id : c.resource_id 2 ≡ f.set_valuer.address
  pub other_ids : (i : ℕ) → 3 ≤ i → c.resource_id i ≡ zero_address
  pub same_owner : c.owner ≡ before.owner
  pub same_sets : (c.sets ≡ before.sets) × (c.is_set ≡ before.is_set)
  pub same_fees : (c.fees ≡ before.fees) × (c.fee_recipient ≡ before.fee_recipient)

module _ (net : Network) (owner zero_address : Address)
    (nonzero : (k : ℕ) → net.create_address owner k ≢ zero_address) where
  not_zero : (k : ℕ) → str_eq (net.create_address owner k) zero_address ≡ false
  not_zero k = str_eq-different _ _ (nonzero k)

  -- The storage that the three loops write.
  abbrev handed_over : SystemFixture → Controller → Controller
  handed_over f c =
      let registry = f.integration_registry.address in
      let oracle = f.price_oracle.address in
      let valuer = f.set_valuer.address in
      record c {
        factories = f.factory.address ∷ [];
        modules =
            f.issuance_module.address ∷ f.streaming_fee_module.address
            ∷ f.nav_issuance_module.address ∷ [];
        resources = registry ∷ oracle ∷ valuer ∷ [];
        is_factory = mark c.is_factory f.factory.address;
        is_module =
            mark (mark (mark c.is_module f.issuance_module.address) f.streaming_fee_module.address)
              f.nav_issuance_module.address;
        is_resource = mark (mark (mark c.is_resource registry) oracle) valuer;
        resource_id = assign (assign (assign c.resource_id 0 registry) 1 oracle) 2 valuer;
        is_initialized = true;
      }

  handed_over-IsHandedOver :
      (f : SystemFixture) (c : Controller)
      → IsFresh zero_address owner c
      → IsHandedOver zero_address c f (handed_over f c)
  handed_over-IsHandedOver f c fresh = record {
    factory_list = refl;
    module_list = refl;
    resource_list = refl;
    is_initialized = refl;
    factory = λ a. grind (arith, fresh.no_factory a);
    modules = λ a. grind (arith, fresh.no_module a);
    resources = λ a. grind (arith, fresh.no_resource a);
    registry_id = refl;
    oracle_id = refl;
    valuer_id = refl;
    other_ids = λ i h. grind (arith, fresh.no_id i);
    same_owner = refl;
    same_sets = (refl, refl);
    same_fees = (refl, refl);
  }

  handover_registers :
      (fee_recipient : Address) (n : ℕ) (c : Controller)
      → IsFresh zero_address owner c
      → (run_initialize zero_address owner (handover net owner fee_recipient n) c
          ≡ ok (handed_over (placed_fixture net owner fee_recipient n) c))
        × IsHandedOver zero_address c
            (placed_fixture net owner fee_recipient n)
            (handed_over (placed_fixture net owner fee_recipient n) c)
  unfolding initialize_controller mark_all register_resources
  handover_registers fee_recipient n c fresh = (
    simp (fresh.same_owner, str_eq_refl, fresh.not_initialized, not_zero, fresh.no_id),
    handed_over-IsHandedOver (placed_fixture net owner fee_recipient n) c fresh,
  )

  -- If every transaction goes through, there is a fourth account, no creation gets the zero address,
  -- and the storage of the controller is fresh and owned by the signer: `initialize` returns a
  -- fixture, and its last transaction is a call of `initialize` of the fixture's controller. On that
  -- storage the call succeeds: the lists and the mappings hold the fixture's factory, the three
  -- modules and the three resources and no other address, the ids 0, 1 and 2 are those of the
  -- resources and every other id stands for none, and owner, SetTokens, fees and fee recipient are
  -- as before.
  pub initialize_registers :
      AcceptsAll net
      → (accounts : List Address) (fee_recipient : Address) (w : World) (c : Controller)
      → get_elem? accounts 3 ≡ some fee_recipient
      → IsFresh zero_address owner c
      → (f : SystemFixture) × (end : World) × (last : Transaction) × (before : List Transaction)
        × (after : Controller) × (initialize net owner accounts w ≡ ok (f, end))
        × (end.log ≡ last ∷ before)
        × (target_of last ≡ some f.controller.address)
        × (run_initialize zero_address owner last c ≡ ok after)
        × IsHandedOver zero_address c f after
  initialize_registers all accounts fee_recipient w c fourth fresh =
      let (runs, held) = handover_registers fee_recipient w.nonce c fresh in
      (
        _,
        _,
        _,
        _,
        _,
        initialize_history net all owner accounts fee_recipient w fourth,
        refl,
        refl,
        runs,
        held,
      )
