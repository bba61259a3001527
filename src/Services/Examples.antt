-- ===== src/Services/Examples.antt =====
-- Runs of the orchestration on three services: `web` depends on `api`, and `api` on `db`.
use atlas_manager.Graph.Closure.{close_from, close}
use atlas_manager.Base.Pattern.{matches, is_slug_from}
use atlas_manager.Graph.Kahn.{run_batches, kahn, dependents_in, sort_strs, visit, detect_visited}
use atlas_manager.Base.{
  ◌++◌, reverse, ◌≤◌, ◌≡◌, ◌↔◌, refl, inl, inr, true, false, List, [], ◌∷◌, Str, lit, str_eq,
  Option, some, none, ok, Bool-cases, if◌then◌else◌,
}
use atlas_manager.Base.Int.{pos}
use atlas_manager.Base.Values.{get_field, Value, Values, Fields}
use atlas_manager.Base.Platform.{is_canonical_timestamp, Dates}
use atlas_manager.Graph.{
  add_closures, compute_closure, closure_of, topological_sort, add_all, detect_cycles, check_known,
  check_duplicates, Entry, build, create_graph, dependencies, dependents, direct_dependencies_of,
  direct_dependents_of,
}
use atlas_manager.Graph.Count.{count}
use atlas_manager.Graph.Kahn.Result.{Different}
use atlas_manager.Graph.Order.{InOrder}
use atlas_manager.Services.State.{Service, ServiceState, Operation}
use atlas_manager.Services.Stop.{StopPorts, is_requested_at, validate_input, execute_stop}
use atlas_manager.Services.Stop.Order.{order_from, dependent_first_requested_order}
use atlas_manager.Services.Stop.Errors.{refused, execute_stop-refused}
use atlas_manager.Services.Plan.{
  plan_restart, validate_operations, plan_start, plan_steps, candidates_of, Step, Snapshot, Input,
  Plan, execute, stops_of, starts_of, control_step, wait_step,
}
use atlas_manager.Services.Plan.Candidates.{Reaches}
use atlas_manager.Services.Plan.Start.{waited, started, Waited, Startable}
use atlas_manager.Services.Plan.Started.{is_stopped, execute-start, execute-start_only}
use atlas_manager.Services.Plan.Stop.{Stops, Stoppable, execute-stop}
use atlas_manager.Services.Plan.Restart.{Supports}
use atlas_manager.Services.Plan.Restarted.{Restarted, execute-restart}

abbrev db : Str
db = lit "db"

abbrev api : Str
api = lit "api"

abbrev web : Str
web = lit "web"

abbrev entries : List Entry
entries =
    record { service_id = web; dependencies = api ∷ [] }
    ∷ record { service_id = api; dependencies = db ∷ [] }
    ∷ record { service_id = db; dependencies = [] }
    ∷ []

created : create_graph entries ≡ ok (build entries)
unfolding create_graph check_duplicates str_eq check_known detect_cycles detect_visited visit
    direct_dependencies_of
created = refl

abbrev noon : Str
noon = lit "2026-01-02T12:00:00.000Z"

abbrev clock : Dates
clock = record { parse = λ s. if str_eq s noon then some (pos 0) else none; to_iso = λ t. noon }

abbrev request : Value
request = Value.object true (
    Fields.field (lit "serviceIds")
      (Value.array (
        Values.cons (Value.string db)
          (Values.cons (Value.string web) (Values.cons (Value.string api) Values.nil))))
      (Fields.field (lit "authority") (Value.string (lit "machine_shutdown")) Fields.end))

abbrev all_operations : List Str
all_operations = lit "start" ∷ lit "stop" ∷ lit "restart" ∷ []

abbrev services : List Service
services =
    record { id = db; supported_operations = all_operations }
    ∷ record { id = api; supported_operations = all_operations }
    ∷ record { id = web; supported_operations = all_operations }
    ∷ []

-- The world is the list of the stopped services; the stop of `api` fails.
abbrev ports : StopPorts (List Str)
ports = record {
  catalog = some services;
  read_status = λ s. some ServiceState.running;
  graph = some (build entries);
  stop_service = λ s w. if str_eq s.id api then (w, false) else (s.id ∷ w, true);
}

abbrev no_ports : StopPorts (List Str)
no_ports = record {
  catalog = none;
  read_status = λ s. none;
  graph = none;
  stop_service = λ s w. (w, true);
}

requested : validate_input request ≡ ok (db ∷ web ∷ api ∷ [])
unfolding validate_input get_field str_eq is_slug_from add_all
requested = refl

at_noon : is_requested_at clock noon ≡ true
unfolding matches is_canonical_timestamp str_eq
at_noon = refl

-- `web` is stopped, the stop of `api` fails, `db` is left alone.
stops_in_order :
    dependent_first_requested_order (direct_dependents_of (build entries)) (db ∷ web ∷ api ∷ [])
    ≡ some (web ∷ api ∷ db ∷ [])
unfolding add_all dependent_first_requested_order order_from sort_strs direct_dependents_of str_eq
    dependents_in
stops_in_order = refl

execute_stop-refused_example :
    execute_stop no_ports clock request noon [] ≡ ([], ok (refused noon db))
execute_stop-refused_example =
    execute_stop-refused no_ports clock request db (web ∷ api ∷ []) noon [] requested at_noon
      (inl refl)

abbrev up : Snapshot
up = record { state = ServiceState.running; supported_operations = all_operations }

abbrev down : Snapshot
down = record { state = ServiceState.stopped; supported_operations = all_operations }

-- The database runs, the others are stopped.
abbrev states : Str → Option Snapshot
states v = some (if str_eq v db then up else down)

startable : (v : Str) → Startable states v
unfolding str_eq
startable v = elim (Bool-cases (str_eq v db)) [
  | inl e ↦ (up, rw e refl, inl refl)
  | inr e ↦ (down, rw e refl, inr (refl, refl))
]

execute-start_example :
    (steps : List Step) × (execute (record {
      target_service_id = web;
      operation = Operation.start;
      graph = build entries;
      snapshots = states;
    })
      ≡ ok (record {
        target_service_id = web;
        requested_operation = Operation.start;
        steps = steps;
      }))
    × Waited (direct_dependencies_of (build entries)) [] steps
    × ((v : Str) → (1 ≤ count v (waited steps)) ↔ Reaches (build entries) dependencies web v)
    × ((v : Str) → count v (waited steps) ≤ 1)
    × ((v : Str)
        → count v (started steps) ≡ (if is_stopped (states v) then count v (waited steps) else 0))
unfolding str_eq
execute-start_example =
    execute-start entries (build entries) web states created refl (λ v r. startable v)

abbrev start_api : Input
start_api = record {
  target_service_id = api;
  operation = Operation.start;
  graph = build entries;
  snapshots = states;
}

abbrev api_plan : Plan
api_plan = record {
  target_service_id = api;
  requested_operation = Operation.start;
  steps = wait_step db ∷ control_step api Operation.start ∷ wait_step api ∷ [];
}

planned : execute start_api ≡ ok api_plan
unfolding execute str_eq candidates_of topological_sort kahn run_batches closure_of add_all
    compute_closure close close_from direct_dependencies_of add_closures plan_steps plan_start
    validate_operations
planned = refl

execute-start_only_example : Startable states api
execute-start_only_example =
    execute-start_only entries start_api api_plan created refl planned api (inl refl)

stoppable : (v : Str) → Stoppable states v
unfolding str_eq
stoppable v = elim (Bool-cases (str_eq v db)) [
  | inl e ↦ (up, rw e refl, inr refl)
  | inr e ↦ (down, rw e refl, inl refl)
]

execute-stop_example :
    (order : List Str) × (steps : List Step) × (execute (record {
      target_service_id = db;
      operation = Operation.stop;
      graph = build entries;
      snapshots = states;
    })
      ≡ ok (record { target_service_id = db; requested_operation = Operation.stop; steps = steps }))
    × Stops states order steps
    × InOrder (direct_dependents_of (build entries)) [] order
    × ((v : Str) → (1 ≤ count v order) ↔ Reaches (build entries) dependents db v)
    × Different order
unfolding str_eq
execute-stop_example =
    execute-stop entries (build entries) db states created refl (λ v r. stoppable v)

-- `api` runs and `web`, which depends on it, is stopped.
abbrev web_down : Str → Option Snapshot
web_down v = some (if str_eq v web then down else up)

supports : (op : Operation) (v : Str) → Supports web_down op v
unfolding str_eq
supports Operation.start v = elim (Bool-cases (str_eq v web)) [
  | inl e ↦ (down, rw e refl, refl)
  | inr e ↦ (up, rw e refl, refl)
]
supports Operation.stop v = elim (Bool-cases (str_eq v web)) [
  | inl e ↦ (down, rw e refl, refl)
  | inr e ↦ (up, rw e refl, refl)
]
supports Operation.restart v = elim (Bool-cases (str_eq v web)) [
  | inl e ↦ (down, rw e refl, refl)
  | inr e ↦ (up, rw e refl, refl)
]

execute-restart_example :
    (order : List Str) × (execute (record {
      target_service_id = db;
      operation = Operation.restart;
      graph = build entries;
      snapshots = web_down;
    })
      ≡ ok (record {
        target_service_id = db;
        requested_operation = Operation.restart;
        steps =
            stops_of order
            ++ (control_step db Operation.restart ∷ wait_step db ∷ starts_of (reverse order));
      }))
    × InOrder (direct_dependents_of (build entries)) [] order
    × ((v : Str) → (1 ≤ count v order) ↔ Restarted (build entries) web_down db v)
    × Different order
unfolding str_eq
execute-restart_example =
    execute-restart entries (build entries) db web_down created refl (supports Operation.restart db)
      (λ v r. (supports Operation.stop v, supports Operation.start v))

-- The restart of `db` starts `web`, which was stopped.
stopped_dependent_starts :
    execute (record {
      target_service_id = db;
      operation = Operation.restart;
      graph = build entries;
      snapshots = web_down;
    })
    ≡ ok (record {
      target_service_id = db;
      requested_operation = Operation.restart;
      steps =
          control_step web Operation.stop
          ∷ control_step api Operation.stop
          ∷ control_step db Operation.restart
          ∷ wait_step db
          ∷ control_step api Operation.start
          ∷ wait_step api
          ∷ control_step web Operation.start
          ∷ wait_step web
          ∷ [];
    })
unfolding execute str_eq candidates_of topological_sort kahn run_batches closure_of add_all
    compute_closure close close_from direct_dependents_of add_closures direct_dependencies_of
    plan_steps plan_restart validate_operations
stopped_dependent_starts = refl
