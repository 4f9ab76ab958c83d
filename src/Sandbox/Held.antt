-- ===== src/Sandbox/Held.antt =====
-- utils/test/testingUtils.ts: what one `beforeEach` hook does to the snapshots that the node holds.
use set_protocol_v.Base.{ℕ, ◌<◌, ◌≡◌, refl, true, false, List, [], ◌∷◌, ok, some}
use set_protocol_v.Sandbox.Node.{Node}
use set_protocol_v.Sandbox.Blockchain.{save_snapshot_async, revert_by_id_async}
use set_protocol_v.Sandbox.Hooks.{Hook, SandboxState, push_snapshot, run_before_each}

abbrev pub AllBelow : ℕ → List ℕ → Type 0
AllBelow i [] = Unit
AllBelow i (j ∷ ids) = (j < i) × AllBelow i ids

module _ {State World : Type 0} (node : Node State World) where
  -- The node holds these chains at these ids, which fall.
  abbrev pub Held : State → List ℕ → List World → Type 0
  Held s [] [] = Unit
  Held s [] (w ∷ ws) = ⊥
  Held s (i ∷ ids) [] = ⊥
  Held s (i ∷ ids) (w ∷ ws) = (node.held s i ≡ some w) × AllBelow i ids × Held s ids ws

  -- Transactions keep what is held.
  pub transact-Held :
      (f : World → World) (s : State) (ids : List ℕ) (ws : List World)
      → Held s ids ws
      → Held (node.transact f s) ids ws
  transact-Held f s [] [] h = tt
  transact-Held f s [] (w ∷ ws) h = h
  transact-Held f s (i ∷ ids) [] h = h
  transact-Held f s (i ∷ ids) (w ∷ ws) (here, below, rest) =
      (rw (node.transact_held f s i) here, below, transact-Held f s ids ws rest)

  snapshot-Held :
      (s : State) (ids : List ℕ) (ws : List World) → Held s ids ws → Held (node.snapshot s).1 ids ws
  snapshot-Held s [] [] h = tt
  snapshot-Held s [] (w ∷ ws) h = h
  snapshot-Held s (i ∷ ids) [] h = h
  snapshot-Held s (i ∷ ids) (w ∷ ws) (here, below, rest) =
      (node.snapshot_keeps s i w here, below, snapshot-Held s ids ws rest)

  snapshot-AllBelow :
      (s : State) (ids : List ℕ) (ws : List World)
      → Held s ids ws
      → AllBelow (node.snapshot s).0 ids
  snapshot-AllBelow s [] [] h = tt
  snapshot-AllBelow s [] (w ∷ ws) h = tt
  snapshot-AllBelow s (i ∷ ids) [] h = absurd h
  snapshot-AllBelow s (i ∷ ids) (w ∷ ws) (here, below, rest) =
      (node.snapshot_later s i w here, snapshot-AllBelow s ids ws rest)

  revert-Held :
      (s : State) (i : ℕ) (w : World) (ids : List ℕ) (ws : List World)
      → node.held s i ≡ some w
      → AllBelow i ids
      → Held s ids ws
      → Held (node.revert i s) ids ws
  revert-Held s i w [] [] e b h = tt
  revert-Held s i w [] (v ∷ ws) e b h = h
  revert-Held s i w (j ∷ ids) [] e b h = h
  revert-Held s i w (j ∷ ids) (v ∷ ws) e (lt, b) (here, below, rest) =
      (node.revert_keeps s i j w v e lt here, below, revert-Held s i w ids ws e b rest)

  -- What is pushed: the chain of that moment is held on top, and the hook is initialized.
  abbrev pub Pushed : Hook World → List World → Hook World × SandboxState State → Type 0
  Pushed hook [] (hook', b') = ⊥
  Pushed hook (w ∷ ws) (hook', b') =
      (hook'.initialized ≡ true)
      × (hook'.initializer ≡ hook.initializer)
      × Held b'.node_state b'.snapshots (w ∷ ws)
      × (node.chain b'.node_state ≡ w)

  push_snapshot-Pushed :
      (hook : Hook World) (ids : List ℕ) (s : State) (w : World) (ws : List World)
      → node.chain s ≡ w
      → Held s ids ws
      → Pushed hook (w ∷ ws) (push_snapshot node hook ids s)
  unfolding push_snapshot save_snapshot_async
  push_snapshot-Pushed hook ids s w ws chain h = (
    refl,
    refl,
    (rw (← chain) (node.snapshot_held s), snapshot-AllBelow s ids ws h, snapshot-Held s ids ws h),
    rw (node.snapshot_chain s) chain,
  )

  -- A hook that is not initialized yet: the initializer runs, and its chain is held on top.
  pub run_before_each_first :
      (hook : Hook World) (b : SandboxState State) (ws : List World)
      → hook.initialized ≡ false
      → Held b.node_state b.snapshots ws
      → (r : Hook World × SandboxState State) × (run_before_each node hook b ≡ ok r)
        × Pushed hook (hook.initializer (node.chain b.node_state) ∷ ws) r
  unfolding run_before_each
  run_before_each_first hook b ws off h =
      let s = node.transact hook.initializer b.node_state in
      (
        push_snapshot node hook b.snapshots s,
        rw off,
        push_snapshot-Pushed hook b.snapshots s _ ws
            (node.transact_chain hook.initializer b.node_state)
            (transact-Held hook.initializer b.node_state b.snapshots ws h),
      )

  run_before_each_ids :
      (hook : Hook World) (ids : List ℕ) (s : State) (w : World) (ws : List World)
      → hook.initialized ≡ true
      → Held s ids (w ∷ ws)
      → (r : Hook World × SandboxState State) × (run_before_each node hook
            (record { snapshots = ids; node_state = s })
          ≡ ok r)
        × Pushed hook (w ∷ ws) r
  unfolding run_before_each revert_by_id_async
  run_before_each_ids hook [] s w ws on h = absurd h
  run_before_each_ids hook (i ∷ ids) s w ws on (here, below, rest) = (
    push_snapshot node hook ids (node.revert i s),
    rw on,
    push_snapshot-Pushed hook ids (node.revert i s) w ws (node.revert_chain s i w here)
        (revert-Held s i w ids ws here below rest),
  )

  -- A hook that is initialized: the chain on top comes back, and is held on top again.
  pub run_before_each_again :
      (hook : Hook World) (b : SandboxState State) (w : World) (ws : List World)
      → hook.initialized ≡ true
      → Held b.node_state b.snapshots (w ∷ ws)
      → (r : Hook World × SandboxState State) × (run_before_each node hook b ≡ ok r)
        × Pushed hook (w ∷ ws) r
  run_before_each_again hook b w ws on h =
      run_before_each_ids hook b.snapshots b.node_state w ws on h
