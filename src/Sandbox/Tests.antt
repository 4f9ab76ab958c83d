-- ===== src/Sandbox/Tests.antt =====
-- A node that meets the laws of `Node`, on which a chain is its block number and the id of a snapshot
-- its position, and the theorems applied to it.
use set_protocol_v.Base.{
  ℕ, zero, suc, ◌+◌, ◌<◌, ◌≡◌, refl, true, List, [], ◌∷◌, ◌++◌, length, get_elem?, none, some, ok,
  arith,
}
use set_protocol_v.Sandbox.Node.{Node}
use set_protocol_v.Sandbox.Blockchain.{
  save_snapshot_async, revert_async, wait_blocks_async, new_blockchain, save-revert,
}
use set_protocol_v.Sandbox.Hooks.{Hook, SandboxState, cache_before_each, run_hooks}
use set_protocol_v.Sandbox.Suites.{
  Suite, open_suite, run_test, Reach, begin, then_step, opened, each_test_starts_alike,
}

abbrev take : ℕ → List ℕ → List ℕ
take zero l = []
take (suc n) [] = []
take (suc n) (x ∷ l) = x ∷ take n l

record Memory : Type 0 where
  chain : ℕ
  saved : List ℕ

get_elem?-snoc : (l : List ℕ) (w : ℕ) → get_elem? (l ++ w ∷ []) (length l) ≡ some w
get_elem?-snoc [] w = refl
get_elem?-snoc (x ∷ l) w = get_elem?-snoc l w

get_elem?-append : (l m : List ℕ) (i w : ℕ) → get_elem? l i ≡ some w → get_elem? (l ++ m) i ≡ some w
get_elem?-append [] m i w h = cc
get_elem?-append (x ∷ l) m zero w h = h
get_elem?-append (x ∷ l) m (suc i) w h = get_elem?-append l m i w h

get_elem?-lt : (l : List ℕ) (i w : ℕ) → get_elem? l i ≡ some w → i < length l
get_elem?-lt [] i w h = cc
get_elem?-lt (x ∷ l) zero w h = omega arith
get_elem?-lt (x ∷ l) (suc i) w h = omega (arith, get_elem?-lt l i w h)

get_elem?-take :
    (l : List ℕ) (i j v : ℕ) → j < i → get_elem? l j ≡ some v → get_elem? (take i l) j ≡ some v
get_elem?-take l zero j v lt h = absurd (omega arith)
get_elem?-take [] (suc i) j v lt h = h
get_elem?-take (x ∷ l) (suc i) zero v lt h = h
get_elem?-take (x ∷ l) (suc i) (suc j) v lt h = get_elem?-take l i j v (omega arith) h

get_elem?-take_self : (l : List ℕ) (i : ℕ) → get_elem? (take i l) i ≡ none
get_elem?-take_self l zero = refl
get_elem?-take_self [] (suc i) = refl
get_elem?-take_self (x ∷ l) (suc i) = get_elem?-take_self l i

abbrev back : ℕ → Memory → Memory
back i s = elim (get_elem? s.saved i) [
  | none ↦ s
  | some w ↦ record { chain = w; saved = take i s.saved }
]

back-known :
    (s : Memory) (i w : ℕ)
    → get_elem? s.saved i ≡ some w
    → back i s ≡ record { chain = w; saved = take i s.saved }
back-known s i w h = rw (h, back)

back-keeps :
    (s : Memory) (i j w v : ℕ)
    → get_elem? s.saved i ≡ some w
    → j < i
    → get_elem? s.saved j ≡ some v
    → get_elem? (back i s).saved j ≡ some v
back-keeps s i j w v h lt k = rw (back-known s i w h) (get_elem?-take s.saved i j v lt k)

back-deletes :
    (s : Memory) (i w : ℕ) → get_elem? s.saved i ≡ some w → get_elem? (back i s).saved i ≡ none
back-deletes s i w h = rw (back-known s i w h) (get_elem?-take_self s.saved i)

back-chain : (s : Memory) (i w : ℕ) → get_elem? s.saved i ≡ some w → (back i s).chain ≡ w
back-chain s i w h = rw (back-known s i w h)

back-unknown : (s : Memory) (i : ℕ) → get_elem? s.saved i ≡ none → back i s ≡ s
back-unknown s i h = rw (back, h)

abbrev memory_node : Node Memory ℕ
memory_node = record {
  chain = λ s. s.chain;
  held = λ s i. get_elem? s.saved i;
  snapshot = λ s. (length s.saved, record s { saved = s.saved ++ s.chain ∷ [] });
  revert = back;
  mine = λ s. record s { chain = suc s.chain };
  increase_time = λ t s. s;
  set_next_block_timestamp = λ t s. s;
  transact = λ f s. record s { chain = f s.chain };
  block_number = λ w. w;
  snapshot_chain = λ s. refl;
  snapshot_held = λ s. get_elem?-snoc s.saved s.chain;
  snapshot_keeps = λ s i w. get_elem?-append s.saved (s.chain ∷ []) i w;
  snapshot_later = λ s i w. get_elem?-lt s.saved i w;
  revert_chain = back-chain;
  revert_keeps = back-keeps;
  revert_unknown = back-unknown;
  revert_deletes = back-deletes;
  transact_chain = λ f s. refl;
  transact_held = λ f s i. refl;
  mine_held = λ s i. refl;
  mine_number = λ s. refl;
}

abbrev genesis : Memory
genesis = record { chain = 5; saved = [] }

abbrev add_ten : ℕ → ℕ
add_ten w = w + 10

abbrev double : ℕ → ℕ
double w = w + w

-- Two nested suites, and a test that has run in the inner one.
abbrev before_test : Suite Memory ℕ
before_test = record {
  path = cache_before_each double ∷ cache_before_each add_ten ∷ [];
  sandbox = record { snapshots = []; node_state = genesis };
}

abbrev after_hooks : List (Hook ℕ) × SandboxState Memory
after_hooks = (
  record { initializer = double; initialized = true; blockchain = record { snapshot_id = 1 } }
      ∷ record {
        initializer = add_ten;
        initialized = true;
        blockchain = record { snapshot_id = 0 };
      }
      ∷ [],
  record { snapshots = 1 ∷ 0 ∷ []; node_state = record { chain = 30; saved = 15 ∷ 30 ∷ [] } },
)

abbrev after_test : Suite Memory ℕ
after_test = record {
  path = after_hooks.0;
  sandbox = record (after_hooks.1) { node_state = record { chain = 31; saved = 15 ∷ 30 ∷ [] } };
}

hooks_run : run_hooks memory_node before_test.path before_test.sandbox ≡ ok after_hooks
unfolding run_hooks save_snapshot_async
hooks_run = refl

test_has_run : Reach memory_node (opened add_ten genesis) after_test
test_has_run =
    then_step (then_step begin (open_suite double refl)) (run_test after_hooks suc hooks_run refl)

each_test_starts_alike_example :
    (r : List (Hook ℕ) × SandboxState Memory) × (run_hooks memory_node after_test.path
        after_test.sandbox
      ≡ ok r)
    × (r.1.node_state.chain ≡ 30)
each_test_starts_alike_example =
    each_test_starts_alike memory_node add_ten genesis after_test test_has_run

save-revert_example :
    let (id, saved, s') = save_snapshot_async memory_node new_blockchain genesis in
    let reverted =
      revert_async memory_node saved
        (wait_blocks_async memory_node 3 (memory_node.transact add_ten s')) in
    (reverted.chain ≡ 5) × (revert_async memory_node saved reverted ≡ reverted)
save-revert_example = save-revert memory_node new_blockchain genesis add_ten 3
