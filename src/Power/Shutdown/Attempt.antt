-- ===== src/Power/Shutdown/Attempt.antt =====
-- application/prepare-machine-shutdown-occurrence.ts: what a step of a preparation comes to, the ports of the
-- class and the variables of `prepareAt`.
use atlas_manager.Base.{
  ℕ, suc, ◌+◌, Bool, true, false, not, ◌||◌, ◌&&◌, List, [], ◌∷◌, ◌++◌, Str, str_lt, Option, some,
  none, Result, ok, err, any, length, map, ltb, ◌==◌, includes, if◌then◌else◌,
}
use atlas_manager.Base.Sort.{sort_by}
use atlas_manager.Power.Tick.{Occurrence}
use atlas_manager.Power.Shutdown.Action.{Action}
use atlas_manager.Power.Shutdown.Blocker.{BlockerCode, Blocker, ReadinessDecision, or_empty}
use atlas_manager.Power.Shutdown.Readiness.{Readers, EvaluationError, is_not_empty}
use atlas_manager.Power.Shutdown.Records.{
  PreparationStep, PreparationFailure, Settled, EventKind, EventDetail, PreparationEvent,
  RecordError, ServiceStep, ServiceOutcome, StepOutcome, StepDetail, StepResult, are_all_different,
  no_detail, settled_as, stopped_counts, blocker_codes, service_detail, settled_detail,
  failure_detail,
}
use atlas_manager.Power.Shutdown.Plan.{PlanFault, same_code, is_approved}
use atlas_manager.Power.Shutdown.Report.{ReportFault}

pub record ServicesPrepared : Type 0 where
  pub steps : List ServiceStep
  pub successful : Bool

-- What a controller of tasks, backups or the file system reports.
pub data Reached : Type 0 where
  reached : Settled → Reached
  tasks_remain : ℕ → Reached
  stuck : PreparationFailure → Reached

abbrev pub Controller : Type 0 → Type 0
Controller W = Occurrence → Str → Action W (Unit {0}) Reached

pub record PreparationPorts (W : Type 0) : Type 0 where
  pub readiness : Readers W
  pub services : Option (Occurrence → Str → List Str → Action W (Unit {0}) ServicesPrepared)
  pub tasks : Controller W
  pub backup : Controller W
  pub filesystem : Controller W
  pub record_event : PreparationEvent → Action W (Unit {0}) (Unit {0})

pub data PreparationError : Type 0 where
  evaluation_failed : EvaluationError → PreparationError
  planning_failed : PlanFault → PreparationError
  step_failed : RecordError → PreparationError
  report_failed : ReportFault → PreparationError

-- What a step came to: the outcome and the detail of the source.
pub data Attempt : Type 0 where
  services_ended : List ServiceStep → Attempt
  services_failed : List ServiceStep → Option PreparationFailure → Attempt
  settled : StepOutcome → Settled → Attempt
  held : PreparationFailure → Option ℕ → Attempt
  broken : Attempt

abbrev pub attempt_outcome : Attempt → StepOutcome
attempt_outcome (services_ended ss) = StepOutcome.completed
attempt_outcome (services_failed ss c) = StepOutcome.failed
attempt_outcome (settled o s) = o
attempt_outcome (held f n) = StepOutcome.blocked
attempt_outcome broken = StepOutcome.failed

abbrev pub attempt_failure : Attempt → PreparationFailure
attempt_failure (services_failed ss (some c)) = c
attempt_failure (held f n) = f
attempt_failure _ = PreparationFailure.preparation_dependency_failed

-- `detail.serviceSteps ?? []` for the services; the detail as it is for another step.
abbrev pub broken_detail : PreparationStep → StepDetail
broken_detail PreparationStep.stop_registered_services =
    service_detail [] (some PreparationFailure.preparation_dependency_failed)
broken_detail k = failure_detail PreparationFailure.preparation_dependency_failed none

abbrev pub attempt_detail : PreparationStep → Attempt → StepDetail
attempt_detail k (services_ended ss) = service_detail ss none
attempt_detail k (services_failed ss c) = service_detail ss c
attempt_detail k (settled o s) = settled_detail s
attempt_detail k (held f n) = failure_detail f n
attempt_detail k broken = broken_detail k

abbrev pub stopped_in : ServiceStep → ℕ
stopped_in s = elim s.outcome [ ServiceOutcome.stopped ↦ 1 | _ ↦ 0 ]

abbrev pub already_stopped_in : ServiceStep → ℕ
already_stopped_in s = elim s.outcome [ ServiceOutcome.already_stopped ↦ 1 | _ ↦ 0 ]

abbrev pub total : {A : Type 0} → (A → ℕ) → List A → ℕ
total f [] = 0
total f (x ∷ xs) = f x + total f xs

abbrev pub completed_detail : Attempt → EventDetail
completed_detail (services_ended ss) =
    stopped_counts (total stopped_in ss) (total already_stopped_in ss)
completed_detail (settled o s) = settled_as s
completed_detail a = no_detail

abbrev pub completed_kind : PreparationStep → EventKind
completed_kind PreparationStep.stop_registered_services = EventKind.services_prepared
completed_kind PreparationStep.drain_active_tasks = EventKind.active_tasks_prepared
completed_kind PreparationStep.complete_backup = EventKind.backup_prepared
completed_kind k = EventKind.filesystem_prepared

abbrev pub is_unfinished : StepOutcome → Bool
is_unfinished StepOutcome.blocked = true
is_unfinished StepOutcome.failed = true
is_unfinished _ = false

-- `[...new Set(xs)]`.
abbrev pub distinct_from : List Str → List Str → List Str
distinct_from seen [] = []
distinct_from seen (x ∷ xs) =
    let later = distinct_from (x ∷ seen) xs in if includes seen x then later else x ∷ later

abbrev pub running_service : Blocker → List Str
running_service b =
    if same_code b.code BlockerCode.service_running && is_not_empty (or_empty b.service_id)
    then or_empty b.service_id ∷ []
    else []

abbrev pub running_services : List Blocker → List Str
running_services [] = []
running_services (b ∷ bs) = running_service b ++ running_services bs

unfoldable pub service_ids_of : List Blocker → List Str
service_ids_of bs = sort_by str_lt (distinct_from [] (running_services bs))

-- The result of the services is not about the services that were asked for.
unfoldable pub is_invalid_services : List Str → ServicesPrepared → Bool
is_invalid_services ids r =
    ltb (length ids) (length r.steps)
    || (any (λ s. not (includes ids s.service_id)) r.steps
        || (not (are_all_different (map (λ s. s.service_id) r.steps))
            || (r.successful && not (length r.steps == length ids))))

-- `steps.find((step) => step.outcome === "failed")`.
abbrev pub first_failed : List ServiceStep → Option (Option PreparationFailure)
first_failed [] = none
first_failed (s ∷ ss) = elim s.outcome [ ServiceOutcome.failed f ↦ some f | _ ↦ first_failed ss ]

abbrev pub services_attempt : List Str → Result (Unit {0}) ServicesPrepared → Attempt
services_attempt ids (err e) = broken
services_attempt ids (ok r) =
    if is_invalid_services ids r then broken else elim (first_failed r.steps) [
      | some f ↦ services_failed r.steps f
      | none ↦ services_ended r.steps
    ]

-- The outcome of a controller that brings its state about, and not one that finds it so.
abbrev pub is_brought_about : Settled → Bool
is_brought_about Settled.drained = true
is_brought_about Settled.completed = true
is_brought_about Settled.synchronized = true
is_brought_about _ = false

abbrev pub controller_attempt : Result (Unit {0}) Reached → Attempt
controller_attempt (err e) = broken
controller_attempt (ok (reached s)) =
    settled (if is_brought_about s then StepOutcome.completed else StepOutcome.skipped) s
controller_attempt (ok (tasks_remain n)) = held PreparationFailure.active_tasks_present (some n)
controller_attempt (ok (stuck f)) = held f none

-- The variables of the method: `sequence`, `steps` and `events`.
pub record Progress : Type 0 where
  pub sequence : ℕ
  pub steps : List StepResult
  pub events : List PreparationEvent

abbrev pub no_progress : Progress
no_progress = record { sequence = 0; steps = []; events = [] }

abbrev pub with_step : StepResult → Progress → Progress
with_step s p = record p { steps = p.steps ++ (s ∷ []) }

abbrev pub with_event : PreparationEvent → Progress → Progress
with_event e p = record p { sequence = suc p.sequence; events = p.events ++ (e ∷ []) }

abbrev pub final_kind : ReadinessDecision → EventKind
final_kind f =
    if is_approved f then EventKind.final_readiness_approved else EventKind.final_readiness_rejected

abbrev pub final_detail : ReadinessDecision → EventDetail
final_detail f = if is_approved f then no_detail else blocker_codes (map (λ b. b.code) f.blockers)
