-- ===== src/Graph.antt =====
-- service-management/domain/dependency-graph.ts.
pub mod Count
pub mod Kahn
pub mod Closure
pub mod Create
pub mod Dag
pub mod Order
pub mod Sorted
pub mod Created
pub mod Examples
use atlas_manager.Base.{
  ℕ, zero, suc, ◌+◌, ◌≡◌, refl, Bool, true, false, not, List, [], ◌∷◌, ◌++◌, map, reverse, Str,
  str_eq, str_lt, Result, ok, err, Option, some, none, ◌>>=◌, ◌>>◌, throw_if, length, keep, all,
  includes, if◌then◌else◌, ◌==◌,
}
use atlas_manager.Graph.Kahn.{detect_visited, kahn, dependents_in, sort_strs}
use atlas_manager.Graph.Closure.{close}

pub data GraphError : Type 0 where
  duplicate_dependency unknown_dependency circular_dependency : GraphError

pub record Entry : Type 0 where
  pub service_id : Str
  pub dependencies : List Str

-- The map from a service to its node, in the order of insertion.
pub record Node : Type 0 where
  pub service_id : Str
  pub direct_dependencies : List Str
  pub direct_dependents : List Str

pub record Graph : Type 0 where
  pub nodes : List Node
  pub service_ids : List Str

abbrev pub entry_ids : List Entry → List Str
entry_ids entries = map (λ e. e.service_id) entries

-- The first loop: a service that occurs twice is an error.
unfoldable pub check_duplicates : List Str → List Entry → Result GraphError (Unit {0})
check_duplicates seen [] = ok tt
check_duplicates seen (e ∷ es) =
    throw_if (includes seen e.service_id) duplicate_dependency
    >> check_duplicates (e.service_id ∷ seen) es

-- The second loop: a dependency that is no service is an error.
unfoldable pub check_known : List Str → List Entry → Result GraphError (Unit {0})
check_known ids [] = ok tt
check_known ids (e ∷ es) =
    throw_if (not (all (includes ids) e.dependencies)) unknown_dependency >> check_known ids es

abbrev pub entry_deps : List Entry → Str → List Str
entry_deps [] id = []
entry_deps (e ∷ es) id = if str_eq e.service_id id then e.dependencies else entry_deps es id

abbrev pub node_of : List Entry → Entry → Node
node_of entries e = record {
  service_id = e.service_id;
  direct_dependencies = e.dependencies;
  direct_dependents =
      sort_strs (dependents_in (entry_ids entries) (entry_deps entries) e.service_id);
}

abbrev pub build : List Entry → Graph
build entries = record {
  nodes = map (node_of entries) entries;
  service_ids = sort_strs (entry_ids entries);
}

unfoldable pub find_node : List Node → Str → Option Node
find_node [] id = none
find_node (n ∷ ns) id = if str_eq n.service_id id then some n else find_node ns id

abbrev pub node_ids : Graph → List Str
node_ids g = map (λ n. n.service_id) g.nodes

unfoldable pub direct_dependencies_of : Graph → Str → List Str
unfolding find_node
direct_dependencies_of g id = elim (find_node g.nodes id) [
  | some n ↦ n.direct_dependencies
  | none ↦ []
]

unfoldable pub direct_dependents_of : Graph → Str → List Str
unfolding find_node
direct_dependents_of g id = elim (find_node g.nodes id) [ some n ↦ n.direct_dependents | none ↦ [] ]

-- The graph has a cycle if fewer services are visited than there are.
unfoldable pub detect_cycles : Graph → Result GraphError (Unit {0})
detect_cycles g =
    throw_if (not (detect_visited (node_ids g) (direct_dependencies_of g) == length (node_ids g)))
      circular_dependency

unfoldable pub create_graph : List Entry → Result GraphError Graph
create_graph entries = do
  check_duplicates [] entries
  check_known (entry_ids entries) entries
  detect_cycles (build entries)
  ok (build entries)

pub data Direction : Type 0 where
  dependencies dependents : Direction

abbrev pub neighbors : Graph → Direction → Str → List Str
neighbors g dependencies id = direct_dependencies_of g id
neighbors g dependents id = direct_dependents_of g id

-- `computeClosure`.
unfoldable pub compute_closure : Graph → Direction → Str → List Str
compute_closure g direction start = sort_strs (close (length g.nodes) (neighbors g direction) start)

-- `set.add(x)`, in the order of insertion, and the same for all of a list.
abbrev pub add_one : List Str → Str → List Str
add_one set x = if includes set x then set else set ++ (x ∷ [])

unfoldable pub add_all : List Str → List Str → List Str
add_all set [] = set
add_all set (x ∷ xs) = add_all (add_one set x) xs

unfoldable pub add_closures : Graph → Direction → List Str → List Str → List Str
add_closures g direction set [] = set
add_closures g direction set (x ∷ xs) =
    add_closures g direction (add_all set (compute_closure g direction x)) xs

-- The set that `topologicalSort` orders.
unfoldable pub closure_of : Graph → Direction → List Str → List Str
closure_of g direction ids = add_all (add_closures g direction [] ids) ids

-- The edges between members of the set.
abbrev pub edges_within : Graph → List Str → Str → List Str
edges_within g set v = keep (includes set) (direct_dependencies_of g v)

unfoldable pub topological_sort : Graph → Direction → List Str → List Str
topological_sort g dependencies ids =
    let set = closure_of g dependencies ids in kahn set (edges_within g set)
topological_sort g dependents ids =
    let set = closure_of g dependents ids in reverse (kahn set (edges_within g set))
