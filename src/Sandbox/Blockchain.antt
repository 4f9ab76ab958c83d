-- ===== src/Sandbox/Blockchain.antt =====
-- The class `Blockchain` of utils/common/blockchainUtils.ts. A method takes the object's field and the
-- node's state, and returns both with its answer.
use set_protocol_v.Base.{ℕ, zero, suc, ◌+◌, ◌≡◌, refl, arith, ◌∙◌, some}
use set_protocol_v.Sandbox.Node.{Node}

-- `_snapshotId`; the constructor sets it to 0.
pub record Blockchain : Type 0 where
  pub snapshot_id : ℕ

abbrev pub new_blockchain : Blockchain
new_blockchain = record { snapshot_id = 0 }

module _ {State World : Type 0} (node : Node State World) where
  unfoldable pub save_snapshot_async : Blockchain → State → ℕ × Blockchain × State
  save_snapshot_async b s =
      let response = node.snapshot s in
      (response.0, record { snapshot_id = response.0 }, response.1)

  unfoldable pub revert_async : Blockchain → State → State
  revert_async b s = node.revert b.snapshot_id s

  unfoldable pub revert_by_id_async : ℕ → State → State
  revert_by_id_async id s = node.revert id s

  -- The id "0x1".
  unfoldable reset_async : State → State
  reset_async s = node.revert 1 s

  unfoldable increase_time_async : ℕ → State → State
  increase_time_async duration s = node.increase_time duration s

  unfoldable set_next_block_timestamp : ℕ → State → State
  set_next_block_timestamp timestamp s = node.set_next_block_timestamp timestamp s

  unfoldable pub wait_blocks_async : ℕ → State → State
  wait_blocks_async zero s = s
  wait_blocks_async (suc count) s = wait_blocks_async count (node.mine s)

  -- A snapshot stays held while blocks are waited for.
  wait_blocks-held :
      (count : ℕ) (s : State) (i : ℕ) → node.held (wait_blocks_async count s) i ≡ node.held s i
  unfolding wait_blocks_async
  wait_blocks-held zero s i = refl
  wait_blocks-held (suc count) s i = wait_blocks-held count (node.mine s) i ∙ node.mine_held s i

  -- Waiting for blocks raises the block number by their count.
  wait_blocks-number :
      (count : ℕ) (s : State)
      → node.block_number (node.chain (wait_blocks_async count s))
        ≡ node.block_number (node.chain s) + count
  unfolding wait_blocks_async
  wait_blocks-number zero s = omega arith
  wait_blocks-number (suc count) s =
      omega (arith, wait_blocks-number count (node.mine s), node.mine_number s)

  -- Whatever transactions are sent, and however many blocks are waited for, after a snapshot is saved:
  -- `revertAsync` brings the chain of that moment back. A second `revertAsync` changes nothing,
  -- since the node has deleted the snapshot.
  pub save-revert :
      (b : Blockchain) (s : State) (f : World → World) (count : ℕ)
      → let (id, saved, s') = save_snapshot_async b s in
        let reverted = revert_async saved (wait_blocks_async count (node.transact f s')) in
        (node.chain reverted ≡ node.chain s) × (revert_async saved reverted ≡ reverted)
  unfolding save_snapshot_async revert_async
  save-revert b s f count =
      let id = (node.snapshot s).0 in
      let later : State = wait_blocks_async count (node.transact f (node.snapshot s).1) in
      let kept : node.held later id ≡ some (node.chain s) =
        wait_blocks-held count _ id ∙ node.transact_held f _ id ∙ node.snapshot_held s in
      (
        node.revert_chain later id _ kept,
        node.revert_unknown _ id (node.revert_deletes later id _ kept),
      )
