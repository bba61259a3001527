-- ===== src/Services/Plan.antt =====
-- plan-registered-service-orchestration.ts: the steps that start, stop or restart a service with the services it
-- depends on, or those that depend on it. The plan is the record of domain/orchestration-plan.ts.
pub mod Keys
pub mod Returned
pub mod Candidates
pub mod Start
pub mod Started
pub mod Stop
pub mod Restart
pub mod Restarted
use atlas_manager.Base.{
  Bool, true, false, not, ◌&&◌, List, [], ◌∷◌, ◌++◌, map, reverse, Str, lit, str_eq, Option, some,
  none, Result, ok, err, ◌>>=◌, ◌>>◌, throw_if, includes, keep, all, map_result, if◌then◌else◌,
}
use atlas_manager.Graph.{
  Graph, node_ids, dependencies, dependents, compute_closure, topological_sort,
}
use atlas_manager.Services.State.{ServiceState, Operation, operation_name}

pub data StepKind : Type 0 where
  control wait_for_readiness : StepKind

pub record Step : Type 0 where
  pub kind : StepKind
  pub service_id : Str
  pub operation : Option Operation

pub record Plan : Type 0 where
  pub target_service_id : Str
  pub requested_operation : Operation
  pub steps : List Step

pub record Snapshot : Type 0 where
  pub state : ServiceState
  pub supported_operations : List Str

-- `undefined_snapshot` is the TypeError that a missing snapshot causes where the code takes it to be present.
pub data PlanError : Type 0 where
  plan_invalid undefined_snapshot : PlanError
  status_unsafe : Str → PlanError

pub record Input : Type 0 where
  pub target_service_id : Str
  pub operation : Operation
  pub graph : Graph
  pub snapshots : Str → Option Snapshot

abbrev pub has_service : Graph → Str → Bool
has_service g id = includes (node_ids g) id

abbrev pub with_target : List Str → Str → List Str
with_target ordered target = if includes ordered target then ordered else ordered ++ (target ∷ [])

abbrev pub dependents_first : Graph → Str → List Str
dependents_first g target =
    topological_sort g dependents (compute_closure g dependents target ++ (target ∷ []))

unfoldable pub candidates_of : Graph → Operation → Str → List Str
candidates_of g Operation.start target =
    topological_sort g dependencies (compute_closure g dependencies target ++ (target ∷ []))
candidates_of g Operation.stop target = with_target (dependents_first g target) target
candidates_of g Operation.restart target = with_target (dependents_first g target) target

-- A literal of a step.
abbrev pub control_step : Str → Operation → Step
control_step id op = record { kind = control; service_id = id; operation = some op }

abbrev pub wait_step : Str → Step
wait_step id = record { kind = wait_for_readiness; service_id = id; operation = none }

abbrev pub has_snapshot : (Str → Option Snapshot) → Str → Bool
has_snapshot snapshots id = elim (snapshots id) [ some s ↦ true | none ↦ false ]

-- What one round of the loop of `planStart` pushes.
abbrev pub start_steps : Str → Option Snapshot → Result PlanError (List Step)
start_steps id none = err undefined_snapshot
start_steps id (some s) = elim s.state [
  | ServiceState.running ↦ ok (wait_step id ∷ [])
  | ServiceState.stopped ↦ ok (control_step id Operation.start ∷ wait_step id ∷ [])
  | ServiceState.failed ↦ err (status_unsafe id)
  | ServiceState.unknown ↦ err (status_unsafe id)
]

unfoldable pub plan_start : (Str → Option Snapshot) → List Str → Result PlanError (List Step)
plan_start snapshots [] = ok []
plan_start snapshots (id ∷ ids) =
    start_steps id (snapshots id) >>= λ now. plan_start snapshots ids >>= λ later. ok (now ++ later)

abbrev pub stop_step : Str → Option Snapshot → Result PlanError Step
stop_step id none = err undefined_snapshot
stop_step id (some s) = elim s.state [
  | ServiceState.stopped ↦ ok (record { kind = control; service_id = id; operation = none })
  | ServiceState.running ↦ ok (control_step id Operation.stop)
  | ServiceState.failed ↦ ok (control_step id Operation.stop)
  | ServiceState.unknown ↦ ok (control_step id Operation.stop)
]

unfoldable pub plan_stop : (Str → Option Snapshot) → List Str → Result PlanError (List Step)
plan_stop snapshots ids = map_result (λ id. stop_step id (snapshots id)) ids

abbrev pub is_active : Snapshot → Bool
is_active s = elim s.state [
  | ServiceState.running ↦ true
  | ServiceState.failed ↦ true
  | ServiceState.unknown ↦ true
  | ServiceState.stopped ↦ false
]

-- `dependents.filter(...)`.
abbrev pub active_of : (Str → Option Snapshot) → List Str → Result PlanError (List Str)
active_of snapshots [] = ok []
active_of snapshots (id ∷ ids) =
    let later = active_of snapshots ids in
    elim (snapshots id) [
      | none ↦ err undefined_snapshot
      | some s ↦ later >>= λ rest. ok (if is_active s then id ∷ rest else rest)
    ]

abbrev pub stops_of : List Str → List Step
stops_of ids = map (λ id. control_step id Operation.stop) ids

abbrev pub starts_of : List Str → List Step
starts_of [] = []
starts_of (id ∷ ids) = control_step id Operation.start ∷ wait_step id ∷ starts_of ids

abbrev pub restart_steps : Str → List Str → List Step
restart_steps target stop_order =
    stops_of stop_order
    ++ (control_step target Operation.restart ∷ wait_step target ∷ starts_of (reverse stop_order))

unfoldable pub plan_restart : Graph → (Str → Option Snapshot) → Str → Result PlanError (List Step)
plan_restart g snapshots target = do
  active ← active_of snapshots (compute_closure g dependents target)
  ok (restart_steps target (topological_sort g dependents active))

abbrev pub kind_name : StepKind → Str
kind_name control = lit "control"
kind_name wait_for_readiness = lit "wait_for_readiness"

abbrev pub operation_or_empty : Option Operation → Str
operation_or_empty none = []
operation_or_empty (some op) = operation_name op

-- The template string of the kind, the service and the operation.
abbrev pub step_key : Step → Str
step_key s =
    kind_name s.kind ++ (lit ":" ++ (s.service_id ++ (lit ":" ++ operation_or_empty s.operation)))

abbrev pub is_supported : Option Operation → Snapshot → Bool
is_supported none s = true
is_supported (some op) s = includes s.supported_operations (operation_name op)

unfoldable pub validate_operations :
    (Str → Option Snapshot) → List Str → List Step → Result PlanError (Unit {0})
validate_operations snapshots seen [] = ok tt
validate_operations snapshots seen (s ∷ ss) = elim (snapshots s.service_id) [
  | none ↦ err plan_invalid
  | some snapshot ↦ do
    throw_if (includes seen (step_key s)) plan_invalid
    throw_if (not (is_supported s.operation snapshot)) plan_invalid
    validate_operations snapshots (step_key s ∷ seen) ss
]

unfoldable pub plan_steps : Input → Result PlanError (List Step)
plan_steps i = elim i.operation [
  | Operation.start ↦ plan_start i.snapshots (candidates_of i.graph i.operation i.target_service_id)
  | Operation.stop ↦ plan_stop i.snapshots (candidates_of i.graph i.operation i.target_service_id)
  | Operation.restart ↦ plan_restart i.graph i.snapshots i.target_service_id
]

unfoldable pub execute : Input → Result PlanError Plan
execute i = do
  throw_if (not (has_service i.graph i.target_service_id)) plan_invalid
  throw_if
      (not (all (has_snapshot i.snapshots) (candidates_of i.graph i.operation i.target_service_id)))
      plan_invalid
  steps ← plan_steps i
  validate_operations i.snapshots [] steps
  ok (record {
    target_service_id = i.target_service_id;
    requested_operation = i.operation;
    steps = steps;
  })
