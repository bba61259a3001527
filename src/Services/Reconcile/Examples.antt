-- ===== src/Services/Reconcile/Examples.antt =====
-- The reconciliation of a service that is stopped and expected to be available.
use atlas_manager.Graph.Kahn.{visit, detect_visited, kahn, run_batches}
use atlas_manager.Base.{◌≡◌, refl, true, List, [], ◌∷◌, Str, lit, str_eq, some, none, ok}
use atlas_manager.Base.Int.{pos}
use atlas_manager.Base.Platform.{Dates, Zone}
use atlas_manager.Graph.{
  add_closures, add_all, closure_of, topological_sort, compute_closure, direct_dependencies_of,
  detect_cycles, check_known, check_duplicates, Entry, build, create_graph,
}
use atlas_manager.Scheduling.Policy.{always_policy}
use atlas_manager.Scheduling.Evaluator.{available, evaluate_at, evaluation_timestamp}
use atlas_manager.Services.State.{ServiceState, Operation}
use atlas_manager.Services.Plan.{
  candidates_of, execute, plan_start, plan_steps, validate_operations, control, wait_for_readiness,
}
use atlas_manager.Services.Control.{
  execute_control, validate_availability, capture, run_plan, ControlPorts, ControlResult, executed,
  ready,
}
use atlas_manager.Services.Reconcile.{
  ReconcilePorts, start, plan_reconciliation, execute_occurrence,
}
use atlas_manager.Scheduling.Override.{evaluate_with_override}
use atlas_manager.Graph.Closure.{close, close_from}
use atlas_manager.Services.Reconcile.Due.{StartDue}
use atlas_manager.Services.Reconcile.Laws.{Started, execute_occurrence-start}
use atlas_manager.Services.Reconcile as Reconcile

abbrev web : Str
web = lit "web"

abbrev entries : List Entry
entries = record { service_id = web; dependencies = [] } ∷ []

created : create_graph entries ≡ ok (build entries)
unfolding create_graph check_duplicates check_known detect_cycles detect_visited visit
    direct_dependencies_of
created = refl

abbrev noon : Str
noon = lit "noon"

abbrev dates : Dates
dates = record { parse = λ s. none; to_iso = λ t. noon }

abbrev utc : Zone
utc = record { format_to_parts = λ zone t. [] }

-- The world is the list of the services that were started.
abbrev control_ports : ControlPorts (List Str)
control_ports = record {
  find_by_id = λ id. some (record { id = id; supported_operations = lit "start" ∷ [] });
  graph = some (build entries);
  availability = λ id. some available;
  status_reader = none;
  wait = λ id w. (w, ok none);
  control = λ s op w. (s.id ∷ w, ok tt);
  now = λ w. noon;
}

abbrev ports : ReconcilePorts (List Str)
ports = record {
  find_policy = λ id. some always_policy;
  find_override = λ id w. some none;
  read_status = λ id w. some ServiceState.stopped;
  instant = λ w. pos 0;
  claim = λ o w. (w, some true);
  orchestrate = control_ports;
}

abbrev result : ControlResult
result = record {
  target_service_id = web;
  requested_operation = Operation.start;
  started_at = noon;
  completed_at = noon;
  steps =
      record {
        service_id = web;
        kind = control;
        operation = some Operation.start;
        outcome = executed noon;
      }
      ∷ record {
        service_id = web;
        kind = wait_for_readiness;
        operation = none;
        outcome = ready noon;
      }
      ∷ [];
  successful = true;
}

starts_web :
    execute_occurrence dates utc ports
      (record { service_id = web; operation = start; scheduled_for = noon })
      []
    ≡ (web ∷ [], ok (Reconcile.executed result))
unfolding execute_occurrence plan_reconciliation evaluate_with_override evaluate_at execute_control
    validate_availability compute_closure close close_from direct_dependencies_of capture
    candidates_of topological_sort kahn run_batches closure_of add_all add_closures run_plan execute
    plan_start plan_steps validate_operations str_eq evaluation_timestamp
starts_web = refl

execute_occurrence-start_example :
    StartDue dates utc ports web []
    × (claimed : List Str) × (ports.claim
          (record { service_id = web; operation = start; scheduled_for = noon })
          []
        ≡ (claimed, some true))
    × Started control_ports (build entries) web claimed (web ∷ []) result
execute_occurrence-start_example =
    execute_occurrence-start dates utc ports entries (build entries) web noon [] (web ∷ []) result
      created refl starts_web
