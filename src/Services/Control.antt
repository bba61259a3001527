-- ===== src/Services/Control.antt =====
-- orchestrate-registered-service-control.ts: a service is started, stopped or restarted with the services around
-- it, step by step along the plan. The result is the record of domain/orchestration-plan.ts.
pub mod Laws
pub mod Trace
pub mod Started
pub mod Gate
pub mod Examples
use atlas_manager.Base.{
  Bool, true, false, not, ◌&&◌, ◌||◌, List, [], ◌∷◌, ◌++◌, Str, str_eq, Option, some, none, Result,
  ok, err, ◌>>=◌, ◌>>◌, throw_if, includes, any, if◌then◌else◌,
}
use atlas_manager.Graph.{Graph, dependencies, compute_closure}
use atlas_manager.Scheduling.Evaluator.{Expectation, available, unavailable, manual, disabled}
use atlas_manager.Services.State.{ServiceState, Service, Operation, operation_name}
use atlas_manager.Services.Plan.{
  StepKind, control, wait_for_readiness, Step, Plan, Snapshot, PlanError, plan_invalid,
  undefined_snapshot, status_unsafe, candidates_of,
}
use atlas_manager.Services.Plan as Planner

pub data Authority : Type 0 where
  by_hand scheduled : Authority

-- What is thrown, as far as `sanitizeOrchestrationError` tells errors apart; `other_error` is any other error.
pub data Thrown : Type 0 where
  service_not_found orchestration_plan_invalid dependency_unavailable : Thrown
  operation_not_supported status_failed readiness_timeout other_error : Thrown

-- What `sanitizeOrchestrationError` returns.
pub data FailureText : Type 0 where
  text_plan_invalid text_dependency_unavailable text_operation_not_supported : FailureText
  text_dependency_status_failed text_dependency_readiness_timeout text_orchestration_step_failed :
      FailureText

abbrev pub sanitize : Thrown → FailureText
sanitize orchestration_plan_invalid = text_plan_invalid
sanitize dependency_unavailable = text_dependency_unavailable
sanitize operation_not_supported = text_operation_not_supported
sanitize status_failed = text_dependency_status_failed
sanitize readiness_timeout = text_dependency_readiness_timeout
sanitize service_not_found = text_orchestration_step_failed
sanitize other_error = text_orchestration_step_failed

-- The errors of the planner.
abbrev pub thrown_of : PlanError → Thrown
thrown_of plan_invalid = orchestration_plan_invalid
thrown_of undefined_snapshot = other_error
thrown_of (status_unsafe id) = status_failed

pub data Outcome : Type 0 where
  executed : Str → Outcome
  skipped : Outcome
  ready : Str → Outcome
  failed : FailureText → Outcome

pub record CompletedStep : Type 0 where
  pub service_id : Str
  pub kind : StepKind
  pub operation : Option Operation
  pub outcome : Outcome

pub record ControlResult : Type 0 where
  pub target_service_id : Str
  pub requested_operation : Operation
  pub started_at : Str
  pub completed_at : Str
  pub steps : List CompletedStep
  pub successful : Bool

abbrev pub is_failed : CompletedStep → Bool
is_failed s = elim s.outcome [
  | failed t ↦ true
  | executed t ↦ false
  | skipped ↦ false
  | ready t ↦ false
]

-- The collaborators, on the states `W` of the world. A graph that is `none`, a status that is `none` and an `err`
-- are calls that throw. `wait` returns the time of the observation, if the waiter returns one. `now` is the text
-- of the clock. `control` is the direct control if there is one, and the controller otherwise.
pub record ControlPorts (W : Type 0) : Type 0 where
  pub find_by_id : Str → Option Service
  pub graph : Option Graph
  pub availability : Str → Option Expectation
  pub status_reader : Option (Service → W → Option ServiceState)
  pub wait : Str → W → W × Result Thrown (Option Str)
  pub control : Service → Operation → W → W × Result Thrown (Unit {0})
  pub now : W → Str

abbrev pub is_blocking : Option Expectation → Result Thrown Bool
is_blocking none = err other_error
is_blocking (some available) = ok false
is_blocking (some manual) = ok false
is_blocking (some unavailable) = ok true
is_blocking (some disabled) = ok true

abbrev pub fallback_state : Operation → ServiceState
fallback_state Operation.start = ServiceState.stopped
fallback_state Operation.stop = ServiceState.running
fallback_state Operation.restart = ServiceState.running

abbrev pub state_read : Option ServiceState → Result Thrown ServiceState
state_read none = err status_failed
state_read (some s) = ok s

-- The operation that is recorded: a wait that is ready has none.
abbrev pub completed : Step → Outcome → CompletedStep
completed s (ready t) = record {
  service_id = s.service_id;
  kind = s.kind;
  operation = none;
  outcome = ready t;
}
completed s o = record {
  service_id = s.service_id;
  kind = s.kind;
  operation = s.operation;
  outcome = o;
}

abbrev pub is_gated : Operation → Authority → Bool
is_gated Operation.start scheduled = true
is_gated _ _ = false

abbrev pub find_snapshot : List (Str × Snapshot) → Str → Option Snapshot
find_snapshot [] id = none
find_snapshot ((k, s) ∷ rest) id = elim (find_snapshot rest id) [
  | some later ↦ some later
  | none ↦ if str_eq k id then some s else none
]

module _ {W : Type 0} (ports : ControlPorts W) where
  unfoldable pub validate_availability : List Str → Result Thrown (Unit {0})
  validate_availability [] = ok tt
  validate_availability (id ∷ ids) = do
    blocking ← is_blocking (ports.availability id)
    throw_if blocking dependency_unavailable
    validate_availability ids

  abbrev pub runtime_state : Operation → Service → W → Result Thrown ServiceState
  runtime_state op s w = elim ports.status_reader [
    | none ↦ ok (fallback_state op)
    | some read ↦ state_read (read s w)
  ]

  abbrev pub capture_one : Operation → Str → W → Result Thrown Snapshot
  capture_one op id w = elim (ports.find_by_id id) [
    | none ↦ err service_not_found
    | some s ↦ runtime_state op s w >>= λ state.
        ok (record { state = state; supported_operations = s.supported_operations })
  ]

  -- `captureSnapshots`, as the entries of the map.
  unfoldable pub capture : Operation → List Str → W → Result Thrown (List (Str × Snapshot))
  capture op [] w = ok []
  capture op (id ∷ ids) w =
      capture_one op id w >>= λ s. capture op ids w >>= λ rest. ok ((id, s) ∷ rest)

  abbrev pub execute_found : Option Service → Operation → W → W × Result Thrown (Unit {0})
  execute_found none op w = (w, err service_not_found)
  execute_found (some s) op w = elim (includes s.supported_operations (operation_name op)) [
    | false ↦ (w, err operation_not_supported)
    | true ↦ ports.control s op w
  ]

  abbrev pub waited_outcome : W × Result Thrown (Option Str) → W × Outcome
  waited_outcome (w, ok (some t)) = (w, ready t)
  waited_outcome (w, ok none) = (w, ready (ports.now w))
  waited_outcome (w, err e) = (w, failed (sanitize e))

  abbrev pub controlled_outcome : W × Result Thrown (Unit {0}) → W × Outcome
  controlled_outcome (w, ok u) = (w, executed (ports.now w))
  controlled_outcome (w, err e) = (w, failed (sanitize e))

  -- One round of the loop over the steps.
  abbrev pub run_step : StepKind → Str → Option Operation → W → W × Outcome
  run_step wait_for_readiness id op w = waited_outcome (ports.wait id w)
  run_step control id (some op) w = controlled_outcome (execute_found (ports.find_by_id id) op w)
  run_step control id none w = (w, skipped)

  abbrev pub add_completed : Step → Outcome → W → W × List CompletedStep → W × List CompletedStep
  add_completed s (failed t) w later = (w, completed s (failed t) ∷ [])
  add_completed s o w (w', done) = (w', completed s o ∷ done)

  unfoldable pub run_plan : List Step → W → W × List CompletedStep
  run_plan [] w = (w, [])
  run_plan (s ∷ ss) w =
      let (w', o) = run_step s.kind s.service_id s.operation w in
      add_completed s o w' (run_plan ss w')

  abbrev pub failed_result : Str → Operation → Str → Thrown → W → ControlResult
  failed_result target op started_at e w = record {
    target_service_id = target;
    requested_operation = op;
    started_at = started_at;
    completed_at = ports.now w;
    steps =
        record {
          service_id = target;
          kind = control;
          operation = some op;
          outcome = failed (sanitize e);
        }
        ∷ [];
    successful = false;
  }

  abbrev pub finished_result : Str → Operation → Str → W × List CompletedStep → W × ControlResult
  finished_result target op started_at (w, done) = (
    w,
    record {
      target_service_id = target;
      requested_operation = op;
      started_at = started_at;
      completed_at = ports.now w;
      steps = done;
      successful = not (any is_failed done);
    },
  )

  abbrev pub run_planned : Str → Operation → Str → Result PlanError Plan → W → W × ControlResult
  run_planned target op started_at (err e) w =
      (w, failed_result target op started_at (thrown_of e) w)
  run_planned target op started_at (ok p) w =
      finished_result target op started_at (run_plan p.steps w)

  abbrev pub gate : Graph → Str → Operation → Authority → Result Thrown (Unit {0})
  gate g target op authority =
      if is_gated op authority
      then validate_availability (compute_closure g dependencies target)
      else ok tt

  abbrev pub run_captured :
      Graph
      → Str
      → Operation
      → Str
      → Result Thrown (List (Str × Snapshot))
      → W
      → W × Result Thrown ControlResult
  run_captured g target op started_at (err e) w = (w, err e)
  run_captured g target op started_at (ok entries) w =
      let (w', r) =
        run_planned target op started_at
          (Planner.execute (record {
            target_service_id = target;
            operation = op;
            graph = g;
            snapshots = find_snapshot entries;
          }))
          w in
      (w', ok r)

  abbrev pub with_graph :
      Option Graph → Str → Operation → Authority → W → W × Result Thrown ControlResult
  with_graph none target op authority w = (w, err other_error)
  with_graph (some g) target op authority w =
      run_captured g target op (ports.now w)
        (gate g target op authority >> capture op (candidates_of g op target) w) w

  unfoldable pub execute_control : Str → Operation → Authority → W → W × Result Thrown ControlResult
  execute_control target op authority w = elim (ports.find_by_id target) [
    | none ↦ (w, err service_not_found)
    | some s ↦ with_graph ports.graph target op authority w
  ]
