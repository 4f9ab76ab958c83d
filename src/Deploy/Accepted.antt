-- ===== src/Deploy/Accepted.antt =====
-- The classes of utils/deploys on a network on which every transaction goes through: what each
-- transaction leaves, for the rest of the function.
use set_protocol_v.Base.{ℕ, zero, suc, String, ◌≡◌, true, List, ◌∷◌}
use set_protocol_v.Base.Int.{ℤ, pos}
use set_protocol_v.Contracts.{Address}
use set_protocol_v.Deploy.Chain.{
  Network, Instance, World, Action, Transaction, Value, creation, call, call_from, ◌>>=◌, ◌>>◌,
  deploy, invoke, invoke_as, invoke_detached,
}

-- The nonce after a number of transactions.
abbrev pub later : ℕ → ℕ → ℕ
later zero n = n
later (suc k) n = suc (later k n)

-- A network on which every transaction goes through.
abbrev pub AcceptsAll : Network → Type 0
AcceptsAll net = (w : World) (t : Transaction) → net.accepts w t ≡ true

module _ (net : Network) (all : AcceptsAll net) (owner : Address) where
  pub deploy-then :
      {B : Type 0} (contract : String) (links : List (String × Address)) (arguments : List Value)
      (w : World) (rest : Instance → Action B)
      → (deploy net owner contract links arguments >>= rest) w
        ≡ rest
            (record { contract = contract; address = net.create_address owner w.nonce })
            (record { nonce = suc w.nonce; log = creation contract links arguments ∷ w.log })
  unfolding deploy
  deploy-then contract links arguments w rest =
      rw (◌>>=◌, deploy, all w (creation contract links arguments))

  pub invoke-then :
      {B : Type 0} (target : Instance) (method : String) (arguments : List Value) (sent : ℤ)
      (w : World) (rest : Action B)
      → (invoke net owner target method arguments sent >> rest) w
        ≡ rest (record {
          nonce = suc w.nonce;
          log = call target.address method arguments sent ∷ w.log;
        })
  unfolding invoke
  invoke-then target method arguments sent w rest =
      rw (◌>>◌, invoke, all w (call target.address method arguments sent))

  pub invoke_detached-then :
      {B : Type 0} (target : Instance) (method : String) (arguments : List Value) (w : World)
      (rest : Action B)
      → (invoke_detached net owner target method arguments >> rest) w
        ≡ rest (record {
          nonce = suc w.nonce;
          log = call target.address method arguments (pos 0) ∷ w.log;
        })
  unfolding invoke_detached
  invoke_detached-then target method arguments w rest =
      rw (◌>>◌, invoke_detached, all w (call target.address method arguments (pos 0)))

  pub invoke_as-then :
      {B : Type 0} (sender : Address) (target : Instance) (method : String) (arguments : List Value)
      (w : World) (rest : Action B)
      → (invoke_as net owner sender target method arguments >> rest) w
        ≡ rest (record w { log = call_from sender target.address method arguments ∷ w.log })
  unfolding invoke_as
  invoke_as-then sender target method arguments w rest =
      rw (◌>>◌, invoke_as, all w (call_from sender target.address method arguments))
