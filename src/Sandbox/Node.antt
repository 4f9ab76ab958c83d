-- ===== src/Sandbox/Node.antt =====
-- The test node that utils/common/blockchainUtils.ts calls over JSON-RPC. It is not in the repository:
-- a parameter, with Hardhat's documented behaviour as laws. `evm_revert` restores the chain of
-- a snapshot and deletes it and the later ones; on an id that it does not hold it changes nothing.
use set_protocol_v.Base.{ℕ, suc, ◌<◌, ◌≡◌, Option, none, some}

pub record Node (State World : Type 0) : Type 0 where
  -- the chain, and what the node holds at an id
  pub chain : State → World
  pub held : State → ℕ → Option World
  -- `evm_snapshot`, `evm_revert`, `evm_mine`, `evm_increaseTime`, `evm_setNextBlockTimestamp`
  pub snapshot : State → ℕ × State
  pub revert : ℕ → State → State
  pub mine : State → State
  pub increase_time : ℕ → State → State
  pub set_next_block_timestamp : ℕ → State → State
  -- transactions that take the chain to another one
  pub transact : (World → World) → State → State
  pub block_number : World → ℕ
  pub snapshot_chain : (s : State) → chain (snapshot s).1 ≡ chain s
  pub snapshot_held : (s : State) → held (snapshot s).1 (snapshot s).0 ≡ some (chain s)
  pub snapshot_keeps :
      (s : State) (i : ℕ) (w : World) → held s i ≡ some w → held (snapshot s).1 i ≡ some w
  pub snapshot_later : (s : State) (i : ℕ) (w : World) → held s i ≡ some w → i < (snapshot s).0
  pub revert_chain : (s : State) (i : ℕ) (w : World) → held s i ≡ some w → chain (revert i s) ≡ w
  pub revert_keeps :
      (s : State) (i j : ℕ) (w v : World)
      → held s i ≡ some w
      → j < i
      → held s j ≡ some v
      → held (revert i s) j ≡ some v
  pub revert_unknown : (s : State) (i : ℕ) → held s i ≡ none → revert i s ≡ s
  pub revert_deletes :
      (s : State) (i : ℕ) (w : World) → held s i ≡ some w → held (revert i s) i ≡ none
  pub transact_chain : (f : World → World) (s : State) → chain (transact f s) ≡ f (chain s)
  pub transact_held : (f : World → World) (s : State) (i : ℕ) → held (transact f s) i ≡ held s i
  pub mine_held : (s : State) (i : ℕ) → held (mine s) i ≡ held s i
  pub mine_number : (s : State) → block_number (chain (mine s)) ≡ suc (block_number (chain s))
