-- ===== src/Sandbox/Hooks.antt =====
-- The hooks of utils/test/testingUtils.ts, and how Mocha runs them: before a test the `beforeEach`
-- hooks of the suites around it, the outermost first; at the end of a suite its `after` hook.
use set_protocol_v.Base.{
  ℕ, Bool, true, false, if◌then◌else◌, List, [], ◌∷◌, Result, ok, err, type_error, ◌>>=◌,
}
use set_protocol_v.Sandbox.Node.{Node}
use set_protocol_v.Sandbox.Blockchain.{
  Blockchain, new_blockchain, save_snapshot_async, revert_by_id_async,
}

-- What a call of `cacheBeforeEach` closes over: `initializer`, by its effect on the chain,
-- `initialized`, and `blockchain`.
pub record Hook (World : Type 0) : Type 0 where
  pub initializer : World → World
  pub initialized : Bool
  pub blockchain : Blockchain

-- `cacheBeforeEach(initializer)`
abbrev pub cache_before_each : {World : Type 0} → (World → World) → Hook World
cache_before_each initializer = record {
  initializer = initializer;
  initialized = false;
  blockchain = new_blockchain;
}

-- `SNAPSHOTS`, the last one pushed first, and the node.
pub record SandboxState (State : Type 0) : Type 0 where
  pub snapshots : List ℕ
  pub node_state : State

module _ {State World : Type 0} (node : Node State World) where
  -- The end of both branches: a snapshot is saved and pushed.
  unfoldable pub push_snapshot : Hook World → List ℕ → State → Hook World × SandboxState State
  push_snapshot hook snapshots s =
      let (id, blockchain, s') = save_snapshot_async node hook.blockchain s in
      (
        record hook { initialized = true; blockchain = blockchain },
        record { snapshots = id ∷ snapshots; node_state = s' },
      )

  -- The `beforeEach` hook. `pop` on an empty array is undefined, which the node refuses as an id.
  unfoldable pub run_before_each :
      Hook World → SandboxState State → Result (Hook World × SandboxState State)
  unfolding push_snapshot
  run_before_each hook b =
      if hook.initialized
      then (elim b.snapshots [
        | [] ↦ err type_error
        | id ∷ rest ↦ ok (push_snapshot hook rest (revert_by_id_async node id b.node_state))
      ])
      else ok (push_snapshot hook b.snapshots (node.transact hook.initializer b.node_state))

  -- The hooks of the suites around a test, the innermost suite first in the list.
  unfoldable pub run_hooks :
      List (Hook World) → SandboxState State → Result (List (Hook World) × SandboxState State)
  unfolding run_before_each
  run_hooks [] b = ok ([], b)
  run_hooks (hook ∷ outer) b = do
    (outer', b') ← run_hooks outer b
    (hook', b'') ← run_before_each hook b'
    ok (hook' ∷ outer', b'')

-- The `after` hook.
abbrev pub pop : List ℕ → List ℕ
pop [] = []
pop (id ∷ rest) = rest

unfoldable pub run_after :
    {State World : Type 0} → Hook World → SandboxState State → SandboxState State
run_after hook b = if hook.initialized then record b { snapshots = pop b.snapshots } else b
