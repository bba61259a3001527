-- ===== src/Services/Control/Examples.antt =====
-- Runs of the control of services: `web` depends on `api`, and `api` on `db`.
use atlas_manager.Graph.Closure.{close_from, close}
use atlas_manager.Graph.Kahn.{run_batches, kahn, visit, detect_visited}
use atlas_manager.Base.{
  ◌≡◌, refl, inl, inr, Bool, true, false, List, [], ◌∷◌, arith, Str, lit, str_eq, some, none, ok,
  err, Bool-cases, if◌then◌else◌,
}
use atlas_manager.Graph.{
  add_closures, compute_closure, add_all, closure_of, topological_sort, direct_dependencies_of,
  detect_cycles, check_known, check_duplicates, Entry, build, create_graph, dependencies, neighbors,
}
use atlas_manager.Graph.Closure.Laws.{Reach, first, further}
use atlas_manager.Scheduling.Evaluator.{available, unavailable}
use atlas_manager.Services.State.{Service, ServiceState, Operation}
use atlas_manager.Services.Plan.{Snapshot, candidates_of}
use atlas_manager.Services.Control.{
  by_hand, scheduled, dependency_unavailable, readiness_timeout, ControlResult, ControlPorts,
  capture, gate, is_blocking, execute_control,
}
use atlas_manager.Services.Control.Started.{IsSafeStart, execute_control-start}
use atlas_manager.Services.Control.Gate.{execute_control-refuses}

abbrev db : Str
db = lit "db"

abbrev api : Str
api = lit "api"

abbrev web : Str
web = lit "web"

abbrev entries : List Entry
entries =
    record { service_id = web; dependencies = api ∷ [] }
    ∷ record { service_id = api; dependencies = db ∷ [] }
    ∷ record { service_id = db; dependencies = [] }
    ∷ []

created : create_graph entries ≡ ok (build entries)
unfolding create_graph check_duplicates str_eq check_known detect_cycles detect_visited visit
    direct_dependencies_of
created = refl

abbrev service : Str → Service
service id = record {
  id = id;
  supported_operations = lit "start" ∷ lit "stop" ∷ lit "restart" ∷ [];
}

-- The world is the list of the services that were started; `web` does not get ready. The database is expected to
-- be unavailable.
abbrev ports : ControlPorts (List Str)
ports = record {
  find_by_id = λ id. some (service id);
  graph = some (build entries);
  availability = λ id. some (if str_eq id db then unavailable else available);
  status_reader = none;
  wait = λ id w. (w, if str_eq id web then err readiness_timeout else ok none);
  control = λ s op w. (s.id ∷ w, ok tt);
  now = λ w. lit "2026-01-02T12:00:00.000Z";
}

abbrev stopped : Str → Str × Snapshot
stopped id = (
  id,
  record {
    state = ServiceState.stopped;
    supported_operations = lit "start" ∷ lit "stop" ∷ lit "restart" ∷ [];
  },
)

captured :
    capture ports Operation.start (candidates_of (build entries) Operation.start web) []
    ≡ ok (stopped db ∷ stopped api ∷ stopped web ∷ [])
unfolding capture candidates_of topological_sort kahn run_batches closure_of add_all compute_closure
    close close_from direct_dependencies_of add_closures
captured = refl

by_hand_open : gate ports (build entries) web Operation.start by_hand ≡ ok tt
by_hand_open = refl

execute_control-start_example :
    (w' : List Str) × (r : ControlResult) × (execute_control ports web Operation.start by_hand []
      ≡ (w', ok r))
    × IsSafeStart ports (build entries) web [] w' r
execute_control-start_example =
    execute_control-start ports entries (build entries) web by_hand [] (service web)
      (stopped db ∷ stopped api ∷ stopped web ∷ []) created refl refl by_hand_open captured

readable : (u : Str) → (b : Bool) × (is_blocking (ports.availability u) ≡ ok b)
readable u = elim (Bool-cases (str_eq u db)) [
  | inl e ↦ (true, rw e refl)
  | inr e ↦ (false, rw e refl)
]

web-db : Reach (neighbors (build entries) dependencies) web db
unfolding direct_dependencies_of str_eq
web-db = further api db (first api (omega arith)) (omega arith)

execute_control-refuses_example :
    execute_control ports web Operation.start scheduled [] ≡ ([], err dependency_unavailable)
unfolding str_eq
execute_control-refuses_example =
    execute_control-refuses ports entries (build entries) web db [] (service web) created refl refl
      readable web-db (inl refl)
