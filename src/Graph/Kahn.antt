-- ===== src/Graph/Kahn.antt =====
-- The queue algorithm of `detectCycles` and `topologicalSort`, over a list of nodes and their edges.
pub mod Step
pub mod Run
pub mod Result
use atlas_manager.Base.{
  ℕ, zero, suc, ◌+◌, ◌≡◌, refl, Bool, true, false, not, ◌||◌, List, [], ◌∷◌, ◌++◌, Str, str_eq,
  str_lt, Option, some, none, length, keep, if◌then◌else◌, ◌==◌, includes,
}
use atlas_manager.Base.Int.{ℤ, pos, negsuc}

-- `xs.sort()`: by UTF-16 code units.
unfoldable pub insert_str : Str → List Str → List Str
insert_str x [] = x ∷ []
insert_str x (y ∷ ys) = let later = y ∷ insert_str x ys in if str_lt y x then later else x ∷ y ∷ ys

unfoldable pub sort_strs : List Str → List Str
unfolding insert_str str_lt
sort_strs [] = []
sort_strs (x ∷ xs) = insert_str x (sort_strs xs)

-- The list that the loop over all edges leaves at `w`: for each node, in order, the node once for each
-- time that it names `w` among its dependencies.
abbrev pub edges_to : Str → Str → List Str → List Str
edges_to w v [] = []
edges_to w v (d ∷ ds) = if str_eq d w then v ∷ edges_to w v ds else edges_to w v ds

unfoldable pub dependents_in : List Str → (Str → List Str) → Str → List Str
unfolding str_eq
dependents_in [] deps w = []
dependents_in (v ∷ vs) deps w = edges_to w v (deps v) ++ dependents_in vs deps w

-- `inDegree`: a map from a node to the number of its dependencies that are not done.
abbrev pub Degrees : Type 0
Degrees = Str → Option ℤ

abbrev pub set_degree : Degrees → Str → ℤ → Degrees
set_degree deg k n = λ v. if str_eq k v then some n else deg v

-- `(deg.get(v) ?? 1) - 1`.
unfoldable pub decrement : Option ℤ → ℤ
decrement (some (pos zero)) = negsuc 0
decrement (some (pos (suc n))) = pos n
decrement (some (negsuc n)) = negsuc (suc n)
decrement none = pos 0

unfoldable pub is_zero : ℤ → Bool
is_zero (pos zero) = true
is_zero _ = false

module _ (enqueue : Str → List Str → List Str) where
  -- The inner loop over the neighbors of a node that is done.
  unfoldable pub relax : List Str → Degrees → List Str → Degrees × List Str
  unfolding decrement is_zero
  relax [] deg queue = (deg, queue)
  relax (v ∷ vs) deg queue =
      let next = decrement (deg v) in
      relax vs (set_degree deg v next) (if is_zero next then enqueue v queue else queue)

-- `queue.push(v)`, and for `detectCycles` also `queue.sort()`.
abbrev pub push : Str → List Str → List Str
push v queue = queue ++ (v ∷ [])

abbrev pub push_sorted : Str → List Str → List Str
push_sorted v queue = sort_strs (queue ++ (v ∷ []))

module _ (nodes : List Str) (deps : Str → List Str) where
  abbrev pub initial_degrees : Degrees
  initial_degrees v = if includes nodes v then some (pos (length (deps v))) else none

  abbrev pub initial_queue : List Str
  initial_queue = sort_strs (keep (λ v. length (deps v) == 0) nodes)

  -- The loop of `detectCycles`, which counts the visited nodes. The fuel is the number of nodes: the
  -- queue is empty when it is used up (`detect_visited-empty`).
  unfoldable pub visit : ℕ → Degrees → List Str → ℕ → ℕ × List Str
  unfolding relax dependents_in sort_strs
  visit fuel deg [] visited = (visited, [])
  visit zero deg (id ∷ queue) visited = (visited, id ∷ queue)
  visit (suc fuel) deg (id ∷ queue) visited =
      let (deg', queue') = relax push_sorted (dependents_in nodes deps id) deg queue in
      visit fuel deg' queue' (visited + 1)

  unfoldable pub detect_visited : ℕ
  detect_visited = (visit (length nodes) initial_degrees initial_queue 0).0

  -- One batch of `topologicalSort`: what is added to the result, and the next queue.
  unfoldable pub run_batch :
      List Str → Degrees → List Str → List Str → Degrees × List Str × List Str
  unfolding relax dependents_in sort_strs
  run_batch [] deg queue result = (deg, queue, result)
  run_batch (id ∷ batch) deg queue result =
      let (deg', queue') = relax push (dependents_in nodes deps id) deg queue in
      run_batch batch deg' queue' (result ++ (id ∷ []))

  -- The batches. The fuel is the number of nodes: each batch has at least one.
  unfoldable pub run_batches : ℕ → Degrees → List Str → List Str → List Str × List Str
  unfolding run_batch
  run_batches fuel deg [] result = (result, [])
  run_batches zero deg (id ∷ queue) result = (result, id ∷ queue)
  run_batches (suc fuel) deg (id ∷ queue) result =
      let (deg', queue', result') = run_batch (sort_strs (id ∷ queue)) deg [] result in
      run_batches fuel deg' queue' result'

  unfoldable pub kahn : List Str
  kahn = (run_batches (length nodes) initial_degrees initial_queue []).0
