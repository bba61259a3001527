-- ===== src/Graph/Created.antt =====
-- The orders and closures of a graph that was created.
use atlas_manager.Base.{ℕ, ◌<◌, ap, arith, ok, ◌≤◌, ◌≡◌, ◌≢◌, ◌↔◌, List, [], Str}
use atlas_manager.Graph.Count.{count}
use atlas_manager.Graph.Kahn.Result.{Different}
use atlas_manager.Graph.Closure.Laws.{Reach, first, further}
use atlas_manager.Graph.Create.{create_graph_iff}
use atlas_manager.Graph.Dag.{build-IsDag}
use atlas_manager.Graph.Order.{InOrder}
use atlas_manager.Graph.{
  Entry, Graph, build, create_graph, Direction, dependencies, dependents, neighbors,
  direct_dependencies_of, direct_dependents_of, compute_closure, topological_sort,
}
use atlas_manager.Graph.Sorted.{
  Needed, compute_closure_iff, topological_sort-forward, topological_sort-reverse,
}

-- On a graph that was created, the start order of some services lists them and all they depend on, once each,
-- every service after its dependencies.
pub created-forward :
    (es : List Entry) (g : Graph) (ids : List Str)
    → create_graph es ≡ ok g
    → InOrder (direct_dependencies_of g) [] (topological_sort g dependencies ids)
      × ((v : Str)
          → (1 ≤ count v (topological_sort g dependencies ids)) ↔ Needed g dependencies ids v)
      × Different (topological_sort g dependencies ids)
created-forward es g ids h =
    let (valid, same) = (create_graph_iff es g).0 h in
    rw (← same) (topological_sort-forward (build es) valid.acyclic.0 (build-IsDag es valid) ids)

-- On a graph that was created, the stop order of some services lists them and all that depend on them, once
-- each, every service after its dependents.
pub created-reverse :
    (es : List Entry) (g : Graph) (ids : List Str)
    → create_graph es ≡ ok g
    → InOrder (direct_dependents_of g) [] (topological_sort g dependents ids)
      × ((v : Str) → (1 ≤ count v (topological_sort g dependents ids)) ↔ Needed g dependents ids v)
      × Different (topological_sort g dependents ids)
created-reverse es g ids h =
    let (valid, same) = (create_graph_iff es g).0 h in
    rw (← same) (topological_sort-reverse (build es) valid.acyclic.0 (build-IsDag es valid) ids)

-- The closure of a service of a graph that was created holds what it reaches, directly or not, and never
-- the service itself.
pub created-closure :
    (es : List Entry) (g : Graph) (direction : Direction) (start v : Str)
    → create_graph es ≡ ok g
    → (1 ≤ count v (compute_closure g direction start))
      ↔ (Reach (neighbors g direction) start v × (start ≢ v))
created-closure es g direction start v h =
    let (valid, same) = (create_graph_iff es g).0 h in
    rw (← same)
      (compute_closure_iff (build es) valid.acyclic.0 (build-IsDag es valid) direction start v)

-- On a created graph the dependents of a service stand above it.
pub dependents-rank :
    (es : List Entry) (g : Graph)
    → create_graph es ≡ ok g
    → (rank : Str → ℕ) × ((v w : Str) → 1 ≤ count w (direct_dependents_of g v) → rank v < rank w)
dependents-rank es g h =
    let (valid, same) = (create_graph_iff es g).0 h in
    rw (← same) (
      valid.acyclic.0,
      λ v w k. (build-IsDag es valid).decreases w v (((build-IsDag es valid).opposite w v).0 k),
    )

-- What is reached stands above.
pub Reach-rank :
    (next : Str → List Str) (rank : Str → ℕ) {v w : Str}
    → ((v w : Str) → 1 ≤ count w (next v) → rank v < rank w)
    → Reach next v w
    → rank v < rank w
Reach-rank next rank above (first w h) = above _ w h
Reach-rank next rank above (further u w r h) =
    omega (arith, Reach-rank next rank above r, above u w h)

-- A service of a created graph does not depend on itself.
pub dependencies-apart :
    (es : List Entry) (g : Graph) {v w : Str}
    → create_graph es ≡ ok g
    → Reach (neighbors g dependencies) v w
    → v ≢ w
dependencies-apart es g {v} {w} h r e =
    let (valid, same) = (create_graph_iff es g).0 h in
    let lower : valid.acyclic.0 w < valid.acyclic.0 v =
      lower_rank valid.acyclic.0 (λ a b k. (build-IsDag es valid).decreases a b (rw (← same) at k))
        r in
    absurd (omega (arith, lower, ap valid.acyclic.0 e))
  where
    lower_rank :
        (rank : Str → ℕ) {a b : Str}
        → ((a b : Str) → 1 ≤ count b (direct_dependencies_of g a) → rank b < rank a)
        → Reach (neighbors g dependencies) a b
        → rank b < rank a
    lower_rank rank below (first b k) = below _ b k
    lower_rank rank below (further u b r k) = omega (arith, lower_rank rank below r, below u b k)
