-- ===== src/Sandbox/Suites.antt =====
-- Nested suites whose hooks are `cacheBeforeEach` of utils/test/testingUtils.ts.
use set_protocol_v.Base.{ℕ, ◌≡◌, ◌⊎◌, inl, inr, refl, sym, true, false, List, [], ◌∷◌, map, ok}
use mathlib.Core.Path.{subst}
use set_protocol_v.Sandbox.Node.{Node}
use set_protocol_v.Sandbox.Hooks.{Hook, cache_before_each, SandboxState, run_hooks, run_after, pop}
use set_protocol_v.Sandbox.Held.{Held, transact-Held, run_before_each_first, run_before_each_again}

-- The suites around a test, the innermost one first.
pub record Suite (State World : Type 0) : Type 0 where
  pub path : List (Hook World)
  pub sandbox : SandboxState State

-- The chain that the initializers make of another, the outermost one first; and the chains on the way.
abbrev pub prepared : {World : Type 0} → World → List (World → World) → World
prepared base [] = base
prepared base (f ∷ outer) = f (prepared base outer)

abbrev stages : {World : Type 0} → World → List (World → World) → List World
stages base [] = []
stages base (f ∷ outer) = prepared base (f ∷ outer) ∷ stages base outer

abbrev pub initializers : {World : Type 0} → List (Hook World) → List (World → World)
initializers = map (λ hook. hook.initializer)

abbrev AllInitialized : {World : Type 0} → List (Hook World) → Type 0
AllInitialized [] = Unit
AllInitialized (hook ∷ outer) = (hook.initialized ≡ true) × AllInitialized outer

abbrev NonEmpty : {A : Type 0} → List A → Type 0
NonEmpty [] = ⊥
NonEmpty (x ∷ xs) = Unit

-- A suite that opens on a chain, before any of its tests has run.
abbrev pub opened : {State World : Type 0} → (World → World) → State → Suite State World
opened f s = record {
  path = cache_before_each f ∷ [];
  sandbox = record { snapshots = []; node_state = s };
}

module _ {State World : Type 0} (node : Node State World) where
  -- One thing happens: a suite with a hook of its own opens; a test runs after the hooks, whatever
  -- its transactions do; the innermost suite ends, inside another.
  pub data Step (c d : Suite State World) : Type 0 where
    open_suite :
        (f : World → World)
        → d ≡ record { path = cache_before_each f ∷ c.path; sandbox = c.sandbox }
        → Step c d
    run_test :
        (r : List (Hook World) × SandboxState State) (f : World → World)
        → run_hooks node c.path c.sandbox ≡ ok r
        → d ≡ record {
          path = r.0;
          sandbox = record (r.1) { node_state = node.transact f r.1.node_state };
        }
        → Step c d
    end_suite :
        (hook next : Hook World) (outer : List (Hook World))
        → c.path ≡ hook ∷ next ∷ outer
        → d ≡ record { path = next ∷ outer; sandbox = run_after hook c.sandbox }
        → Step c d

  pub data Reach (c : Suite State World) : Suite State World → Type 0 where
    begin : Reach c c
    then_step : {d e : Suite State World} → Reach c d → Step d e → Reach c e

  -- The hooks on the path that are initialized are the outer ones, and the node holds their stages.
  abbrev Cached : World → List (Hook World) → SandboxState State → Type 0
  Cached base [] b = (b.snapshots ≡ []) × (node.chain b.node_state ≡ base)
  Cached base (hook ∷ outer) b =
      ((hook.initialized ≡ true)
        × AllInitialized outer
        × Held node b.node_state b.snapshots (stages base (initializers (hook ∷ outer))))
      ⊎ ((hook.initialized ≡ false) × Cached base outer b)

  abbrev Restored : List (Hook World) → World → World → Type 0
  Restored [] v w = Unit
  Restored (hook ∷ outer) v w = v ≡ w

  run_hooks_again :
      (p : List (Hook World)) (b : SandboxState State) (w : World) (ws : List World)
      → AllInitialized p
      → Held node b.node_state b.snapshots (w ∷ ws)
      → (r : List (Hook World) × SandboxState State) × (run_hooks node p b ≡ ok r)
        × AllInitialized r.0
        × (initializers r.0 ≡ initializers p)
        × Held node r.1.node_state r.1.snapshots (w ∷ ws)
        × Restored p (node.chain r.1.node_state) w
  unfolding run_hooks
  run_hooks_again [] b w ws on h = (([], b), refl, tt, refl, h, tt)
  run_hooks_again (hook ∷ outer) b w ws (on, all) h =
      let (r, runs, r_on, same, r_held, _) = run_hooks_again outer b w ws all h in
      let (r', runs', (on', same', held', chain')) =
        run_before_each_again node hook r.1 w ws on r_held in
      ((r'.0 ∷ r.0, r'.1), rw (runs, runs'), (on', r_on), cc, held', chain')

  -- The hooks around a test run through, and the test finds the chain that the initializers make.
  run_hooks_lem :
      (base : World) (p : List (Hook World)) (b : SandboxState State)
      → Cached base p b
      → (r : List (Hook World) × SandboxState State) × (run_hooks node p b ≡ ok r)
        × AllInitialized r.0
        × (initializers r.0 ≡ initializers p)
        × Held node r.1.node_state r.1.snapshots (stages base (initializers p))
        × (node.chain r.1.node_state ≡ prepared base (initializers p))
  unfolding run_hooks
  run_hooks_lem base [] b (empty, chain) = (([], b), refl, tt, refl, rw empty tt, chain)
  run_hooks_lem base (hook ∷ outer) b (inl (on, all, h)) =
      let (r, runs, r_on, same, r_held, _) = run_hooks_again outer b _ _ all h in
      let (r', runs', (on', same', held', chain')) =
        run_before_each_again node hook r.1 _ _ on r_held in
      ((r'.0 ∷ r.0, r'.1), rw (runs, runs'), (on', r_on), cc, held', chain')
  run_hooks_lem base (hook ∷ outer) b (inr (off, cached)) =
      let (r, runs, r_on, same, r_held, chain) = run_hooks_lem base outer b cached in
      let (r', runs', (on', same', held', chain')) =
        run_before_each_first node hook r.1 _ off r_held in
      ((r'.0 ∷ r.0, r'.1), rw (runs, runs'), (on', r_on), cc, rw chain at held', rw chain at chain')

  -- A suite that is open, and what holds of it between two events.
  abbrev Sound : World → Suite State World → Type 0
  Sound base c = NonEmpty c.path × Cached base c.path c.sandbox

  NonEmpty-initializers :
      (p q : List (Hook World)) → initializers p ≡ initializers q → NonEmpty q → NonEmpty p
  NonEmpty-initializers [] [] same full = full
  NonEmpty-initializers [] (hook ∷ q) same full = cc
  NonEmpty-initializers (hook ∷ p) q same full = tt

  Cached-all :
      (base : World) (p : List (Hook World)) (b : SandboxState State)
      → NonEmpty p
      → AllInitialized p
      → Held node b.node_state b.snapshots (stages base (initializers p))
      → Cached base p b
  Cached-all base [] b full all h = absurd full
  Cached-all base (hook ∷ p) b full (on, all) h = inl (on, all, h)

  pop-Held :
      (s : State) (ids : List ℕ) (w : World) (ws : List World)
      → Held node s ids (w ∷ ws)
      → Held node s (pop ids) ws
  pop-Held s [] w ws h = absurd h
  pop-Held s (i ∷ ids) w ws (here, below, rest) = rest

  run_after-Cached :
      (base : World) (hook next : Hook World) (outer : List (Hook World)) (b : SandboxState State)
      → Cached base (hook ∷ next ∷ outer) b
      → Cached base (next ∷ outer) (run_after hook b)
  unfolding run_after
  run_after-Cached base hook next outer b (inl (on, (next_on, all), h)) =
      rw on (inl (next_on, all, pop-Held b.node_state b.snapshots _ _ h))
  run_after-Cached base hook next outer b (inr (off, cached)) = rw off cached

  test_Sound :
      (base : World) (c d : Suite State World) (r r' : List (Hook World) × SandboxState State)
      (f : World → World)
      → r' ≡ r
      → d ≡ record {
        path = r.0;
        sandbox = record (r.1) { node_state = node.transact f r.1.node_state };
      }
      → Sound base (record {
        path = r'.0;
        sandbox = record (r'.1) { node_state = node.transact f r'.1.node_state };
      })
      → Sound base d
  test_Sound base c d r r' f equal e sound = rw e (
      subst
        (λ (t : List (Hook World) × SandboxState State). Sound base (record {
          path = t.0;
          sandbox = record (t.1) { node_state = node.transact f t.1.node_state };
        }))
        equal sound)

  Step-Sound : (base : World) (c d : Suite State World) → Step c d → Sound base c → Sound base d
  Step-Sound base c d (open_suite f e) (full, cached) = rw e (tt, inr (refl, cached))
  Step-Sound base c d (run_test r f runs e) (full, cached) =
      let (r', runs', all, same, h, chain) = run_hooks_lem base c.path c.sandbox cached in
      let equal : r' ≡ r = cc in
      let full' = NonEmpty-initializers r'.0 c.path same full in
      let held =
        subst (λ fs. Held node r'.1.node_state r'.1.snapshots (stages base fs)) (sym same) h in
      let after : SandboxState State = record (r'.1) {
        node_state = node.transact f r'.1.node_state;
      } in
      let sound : Sound base (record { path = r'.0; sandbox = after }) = (
        full',
        Cached-all base r'.0 after full' all
            (transact-Held node f r'.1.node_state r'.1.snapshots _ held),
      ) in
      test_Sound base c d r r' f equal e sound
  Step-Sound base c d (end_suite hook next outer path e) (full, cached) =
      rw e (tt, run_after-Cached base hook next outer c.sandbox (rw path at cached))

  Reach-Sound : (base : World) (c d : Suite State World) → Sound base c → Reach c d → Sound base d
  Reach-Sound base c d sound begin = sound
  Reach-Sound base c d sound (then_step {d = m} r st) =
      Step-Sound base m d st (Reach-Sound base c m sound r)

  -- After any sequence of nested suites that open and end, and of tests that change the chain in any
  -- way, the hooks around the next test run through, and the test finds exactly the chain that
  -- the initializers of the suites around it make, the outermost first, of the chain on which
  -- the outermost suite opened.
  pub each_test_starts_alike :
      (f : World → World) (s : State) (c : Suite State World)
      → Reach (opened f s) c
      → (r : List (Hook World) × SandboxState State) × (run_hooks node c.path c.sandbox ≡ ok r)
        × (node.chain r.1.node_state ≡ prepared (node.chain s) (initializers c.path))
  each_test_starts_alike f s c reached =
      let sound =
        Reach-Sound (node.chain s) (opened f s) c (tt, inr (refl, (refl, refl))) reached in
      let (r, runs, all, same, h, chain) = run_hooks_lem (node.chain s) c.path c.sandbox sound.1 in
      (r, runs, chain)
