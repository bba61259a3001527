-- ===== src/Graph/Examples.antt =====
-- Runs of the dependency graph on three services: `web` depends on `api`, and `api` on `db`.
use atlas_manager.Graph.Closure.{close_from, close}
use atlas_manager.Graph.Kahn.{run_batches, kahn, visit, detect_visited}
use atlas_manager.Base.{◌≤◌, ◌≡◌, ◌≢◌, refl, ◌↔◌, List, [], ◌∷◌, Str, lit, str_eq, ok, err}
use atlas_manager.Graph.{
  add_closures, add_all, closure_of, detect_cycles, check_known, check_duplicates, Entry,
  circular_dependency, build, create_graph, dependencies, dependents, neighbors,
  direct_dependencies_of, direct_dependents_of, compute_closure, topological_sort,
}
use atlas_manager.Graph.Count.{count}
use atlas_manager.Graph.Kahn.Result.{Different}
use atlas_manager.Graph.Closure.Laws.{Reach}
use atlas_manager.Graph.Create.{IsValid, create_graph_iff}
use atlas_manager.Graph.Order.{InOrder}
use atlas_manager.Graph.Sorted.{Needed}
use atlas_manager.Graph.Created.{created-forward, created-reverse, created-closure}

abbrev db : Str
db = lit "db"

abbrev api : Str
api = lit "api"

abbrev web : Str
web = lit "web"

abbrev entries : List Entry
entries =
    record { service_id = web; dependencies = api ∷ [] }
    ∷ record { service_id = api; dependencies = db ∷ [] }
    ∷ record { service_id = db; dependencies = [] }
    ∷ []

abbrev cycle : List Entry
cycle =
    record { service_id = web; dependencies = api ∷ [] }
    ∷ record { service_id = api; dependencies = web ∷ [] }
    ∷ []

created : create_graph entries ≡ ok (build entries)
unfolding create_graph check_duplicates str_eq check_known detect_cycles detect_visited visit
    direct_dependencies_of
created = refl

cycle_refused : create_graph cycle ≡ err circular_dependency
unfolding create_graph check_duplicates str_eq check_known detect_cycles detect_visited visit
    direct_dependencies_of
cycle_refused = refl

start_order : topological_sort (build entries) dependencies (web ∷ []) ≡ db ∷ api ∷ web ∷ []
unfolding topological_sort kahn run_batches closure_of add_all add_closures compute_closure close
    close_from direct_dependencies_of
start_order = refl

stop_order : topological_sort (build entries) dependents (db ∷ []) ≡ web ∷ api ∷ db ∷ []
unfolding topological_sort kahn run_batches closure_of add_all add_closures compute_closure close
    close_from direct_dependents_of direct_dependencies_of
stop_order = refl

create_graph_iff_example :
    (create_graph entries ≡ ok (build entries))
    ↔ (IsValid entries × (build entries ≡ build entries))
create_graph_iff_example = create_graph_iff entries (build entries)

created-forward_example :
    InOrder
      (direct_dependencies_of (build entries))
      []
      (topological_sort (build entries) dependencies (web ∷ []))
    × ((v : Str)
        → (1 ≤ count v (topological_sort (build entries) dependencies (web ∷ [])))
          ↔ Needed (build entries) dependencies (web ∷ []) v)
    × Different (topological_sort (build entries) dependencies (web ∷ []))
created-forward_example = created-forward entries (build entries) (web ∷ []) created

created-reverse_example :
    InOrder
      (direct_dependents_of (build entries))
      []
      (topological_sort (build entries) dependents (db ∷ []))
    × ((v : Str)
        → (1 ≤ count v (topological_sort (build entries) dependents (db ∷ [])))
          ↔ Needed (build entries) dependents (db ∷ []) v)
    × Different (topological_sort (build entries) dependents (db ∷ []))
created-reverse_example = created-reverse entries (build entries) (db ∷ []) created

created-closure_example :
    (1 ≤ count db (compute_closure (build entries) dependencies web))
    ↔ (Reach (neighbors (build entries) dependencies) web db × (web ≢ db))
created-closure_example = created-closure entries (build entries) dependencies web db created
