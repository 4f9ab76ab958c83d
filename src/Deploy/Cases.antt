-- ===== src/Deploy/Cases.antt =====
-- The classes of utils/deploys on any network: a transaction goes through, or the function is
-- rejected.
use set_protocol_v.Base.{suc, ◌≡◌, ◌⊎◌, inl, inr, Bool-cases, String, List, [], ◌∷◌, err, reverted}
use set_protocol_v.Base.Int.{pos}
use set_protocol_v.Contracts.{Address}
use set_protocol_v.Deploy.Chain.{
  Network, Instance, World, Action, Value, creation, call, ◌>>=◌, ◌>>◌, deploy, invoke,
}

module _ (net : Network) (owner : Address) where
  -- A transaction goes through for the rest of the function, or rejects it.
  pub deploy-cases :
      {B : Type 0} (contract : String) (arguments : List Value) (w : World)
      (rest : Instance → Action B)
      → ((deploy net owner contract [] arguments >>= rest) w ≡ err reverted)
        ⊎ ((deploy net owner contract [] arguments >>= rest) w
            ≡ rest
                (record { contract = contract; address = net.create_address owner w.nonce })
                (record { nonce = suc w.nonce; log = creation contract [] arguments ∷ w.log }))
  unfolding deploy
  deploy-cases contract arguments w rest =
      elim (Bool-cases (net.accepts w (creation contract [] arguments))) [
        | inl taken ↦ inr (rw (◌>>=◌, deploy, taken))
        | inr refused ↦ inl (rw (◌>>=◌, deploy, refused))
      ]

  pub invoke-cases :
      {B : Type 0} (target : Instance) (method : String) (arguments : List Value) (w : World)
      (rest : Action B)
      → ((invoke net owner target method arguments (pos 0) >> rest) w ≡ err reverted)
        ⊎ ((invoke net owner target method arguments (pos 0) >> rest) w
            ≡ rest (record {
              nonce = suc w.nonce;
              log = call target.address method arguments (pos 0) ∷ w.log;
            }))
  unfolding invoke
  invoke-cases target method arguments w rest =
      elim (Bool-cases (net.accepts w (call target.address method arguments (pos 0)))) [
        | inl taken ↦ inr (rw (◌>>◌, invoke, taken))
        | inr refused ↦ inl (rw (◌>>◌, invoke, refused))
      ]
