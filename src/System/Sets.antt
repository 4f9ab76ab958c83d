-- ===== src/System/Sets.antt =====
-- utils/fixtures/systemFixture.ts: creating and issuing SetTokens on the deployed system.
use set_protocol_v.Base.{
  ℕ, suc, ◌≡◌, refl, ◌∙◌, ◌-◌, ◌^◌, String, List, [], ◌∷◌, Option, some, Result, ok,
}
use set_protocol_v.Base.Int.{ℤ, pos}
use set_protocol_v.Contracts.{Address}
use set_protocol_v.Protocol.{Provider, Position, get_created_set_token_address}
use set_protocol_v.Deploy.Chain.{
  Network, Instance, World, Action, Transaction, call, address, addresses, number, numbers, text,
  pure, attach, lift, or_default, ◌>>=◌, ◌>>◌, invoke,
}
use set_protocol_v.Deploy.Accepted.{AcceptsAll, invoke-then}
use set_protocol_v.Deploy.Mocks.Integration.{get_token_mock}
use set_protocol_v.System.Fixture.{SystemFixture}

module _ (net : Network) (owner_address : Address) where
  -- `createSetToken`. The hash of the transaction, and what a provider answers, are those of the world
  -- after it.
  unfoldable create_set_token :
      {Log : Type 0}
      → (World → Provider Log)
      → (World → List ℕ)
      → SystemFixture
      → List Address
      → List ℤ
      → List Address
      → Option Address
      → Option String
      → Option String
      → Action Instance
  unfolding get_created_set_token_address
  create_set_token provider last_hash fixture components units modules manager name symbol = do
    invoke net owner_address fixture.factory "create"
        (addresses components
          ∷ numbers units
          ∷ addresses modules
          ∷ address (or_default manager owner_address)
          ∷ text (or_default name "SetToken")
          ∷ text (or_default symbol "SET")
          ∷ [])
        (pos 0)
    retrieved ← (λ w. lift (get_created_set_token_address (provider w) (some (last_hash w))) w)
    pure (attach "SetToken" retrieved)

  -- The loop of `approveAndIssueSetToken`.
  unfoldable approve_components : Instance → List Position → Action (Unit {0})
  unfolding get_token_mock
  approve_components issuance_module [] = pure tt
  approve_components issuance_module (position ∷ positions) =
      invoke net owner_address (get_token_mock position.component) "approve"
        (address issuance_module.address ∷ number (pos (2 ^ 256 - 1)) ∷ []) (pos 0)
      >> approve_components issuance_module positions

  -- `approveAndIssueSetToken`; `get_positions` answers for the SetToken at the moment.
  unfoldable pub approve_and_issue_set_token :
      (World → Address → Result (List Position))
      → SystemFixture
      → Instance
      → ℤ
      → Option Address
      → Action (Unit {0})
  unfolding approve_components
  approve_and_issue_set_token get_positions fixture set_token issue_quantity to = do
    positions ← (λ w. lift (get_positions w set_token.address) w)
    approve_components fixture.issuance_module positions
    invoke net owner_address fixture.issuance_module "issue"
        (address set_token.address
          ∷ number issue_quantity
          ∷ address (or_default to owner_address)
          ∷ [])
        (pos 0)

  -- The approval of a component without bound.
  abbrev approval : Address → Position → Transaction
  approval spender position =
      call position.component "approve" (address spender ∷ number (pos (2 ^ 256 - 1)) ∷ []) (pos 0)

  -- The world after the approvals of some positions.
  abbrev pub after_approvals : Address → List Position → World → World
  after_approvals spender [] w = w
  after_approvals spender (position ∷ positions) w =
      after_approvals spender positions
        (record { nonce = suc w.nonce; log = approval spender position ∷ w.log })

  -- The call of `issue`.
  abbrev pub issue : SystemFixture → Instance → ℤ → Option Address → Transaction
  issue fixture set_token quantity to =
      call fixture.issuance_module.address "issue"
        (address set_token.address ∷ number quantity ∷ address (or_default to owner_address) ∷ [])
        (pos 0)

  approve_components_lem :
      (all : AcceptsAll net) (spender : Instance) (positions : List Position) (w : World)
      → approve_components spender positions w
        ≡ ok (tt, after_approvals spender.address positions w)
  unfolding approve_components get_token_mock
  approve_components_lem all spender [] w = refl
  approve_components_lem all spender (position ∷ positions) w =
      invoke-then net all owner_address _ _ _ _ w (approve_components spender positions)
      ∙ approve_components_lem all spender positions _

  -- If every transaction goes through and the SetToken answers with its positions,
  -- `approveAndIssueSetToken` sends one approval without bound to the issuance module for each
  -- position, in their order, and then issues the quantity to the given account, the owner if
  -- none is given; nothing else.
  pub approve_and_issue_history :
      (all : AcceptsAll net) (get_positions : World → Address → Result (List Position))
      (fixture : SystemFixture) (set_token : Instance) (quantity : ℤ) (to : Option Address)
      (positions : List Position) (w : World)
      → get_positions w set_token.address ≡ ok positions
      → let approved = after_approvals fixture.issuance_module.address positions w in
        approve_and_issue_set_token get_positions fixture set_token quantity to w
        ≡ ok (
          tt,
          record {
            nonce = suc approved.nonce;
            log = issue fixture set_token quantity to ∷ approved.log;
          },
        )
  unfolding approve_and_issue_set_token invoke
  approve_and_issue_history all get_positions fixture set_token quantity to positions w answers =
      rw
        (
          ◌>>=◌,
          ◌>>◌,
          answers,
          approve_components_lem all fixture.issuance_module positions w,
          all (after_approvals fixture.issuance_module.address positions w)
              (issue fixture set_token quantity to),
        )
        refl
