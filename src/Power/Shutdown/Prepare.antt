-- ===== src/Power/Shutdown/Prepare.antt =====
-- application/prepare-machine-shutdown-occurrence.ts, `prepareAt`: what stands in the way of a shutdown is
-- removed, step by step, and the readiness is evaluated again. Each step is recorded as an event.
pub mod Plans
pub mod Run
pub mod Keeps
pub mod KeptSteps
pub mod Laws
use atlas_manager.Base.{
  suc, Bool, true, false, List, [], ◌∷◌, Str, Option, some, none, Result, ok, err, if◌then◌else◌,
}
use atlas_manager.Base.Int.{ℤ}
use atlas_manager.Base.Platform.{Dates}
use atlas_manager.Power.Tick.{Occurrence}
use atlas_manager.Power.Interval.{create_occurrence}
use atlas_manager.Power.Shutdown.Action.{Action, lift, after, ◌>>=◌}
use atlas_manager.Power.Shutdown.Blocker.{ReadinessDecision}
use atlas_manager.Power.Shutdown.Readiness.{
  Reader, Readers, EvaluationError, occurrence_of, evaluate_at, is_not_empty,
}
use atlas_manager.Power.Shutdown.Records.{
  PreparationStep, PreparationFailure, EventKind, EventDetail, PreparationEvent, StepOutcome,
  RecordError, create_event, create_step_result, StepDetail, is_recording, no_detail, failed_at,
}
use atlas_manager.Power.Shutdown.Plan.{
  PreparationPlan, Planning, planned, create_preparation_plan, is_approved,
}
use atlas_manager.Power.Shutdown.Report.{
  PreparationReport, PreparationOutcome, prepared, incomplete, not_required,
  create_preparation_report, map_error,
}
use atlas_manager.Power.Shutdown.Attempt.{
  ServicesPrepared, PreparationPorts, PreparationError, evaluation_failed, planning_failed,
  step_failed, report_failed, Attempt, broken, services_failed, Progress, no_progress, with_step,
  with_event, attempt_outcome, attempt_failure, attempt_detail, completed_detail, completed_kind,
  is_unfinished, service_ids_of, services_attempt, controller_attempt, final_kind, final_detail,
}

module _ (d : Dates) (compare : Str → Str → ℤ) {W : Type 0} (ports : PreparationPorts W)
    (confirmation : Option (Reader W Bool)) where
  -- The reader that `evaluateAt` gets, or the one it has.
  abbrev pub confirmation_or : Option (Reader W Bool) → Reader W Bool
  confirmation_or none = ports.readiness.confirmation
  confirmation_or (some r) = r

  unfoldable pub evaluate_with : Occurrence → Str → Action W PreparationError ReadinessDecision
  evaluate_with o at w =
      let r = evaluate_at d compare ports.readiness (confirmation_or confirmation) o at w in
      (r.0, map_error evaluation_failed r.1)

module _ (d : Dates) (compare : Str → Str → ℤ) {W : Type 0} (ports : PreparationPorts W)
    (confirmation : Option (Reader W Bool)) (o : Occurrence) (at : Str)
    (initial : ReadinessDecision) where
  abbrev recorded :
      {E : Type 0}
      → Progress
      → PreparationEvent
      → W × Result (Unit {0}) (Unit {0})
      → W × Result E (Progress × Bool)
  recorded p e (w, ok u) = (w, ok (with_event e p, true))
  recorded p e (w, err u) = (w, ok (p, false))

  abbrev record_created :
      {E : Type 0} → Progress → Result RecordError PreparationEvent → Action W E (Progress × Bool)
  record_created p (err e) w = (w, ok (p, false))
  record_created p (ok e) w = recorded p e (ports.record_event e w)

  -- The closure `event`: whether the event was recorded.
  unfoldable pub event :
      EventKind → EventDetail → Progress → Action W PreparationError (Progress × Bool)
  event kind detail p w = record_created p (create_event d (suc p.sequence) kind o at detail) w

  abbrev pub stop_services :
      Option (Occurrence → Str → List Str → Action W (Unit {0}) ServicesPrepared) → W → W × Attempt
  stop_services none w = (w, services_failed [] (some PreparationFailure.service_stop_failed))
  stop_services (some prepare) w =
      let ids = service_ids_of initial.blockers in
      let r = prepare o at ids w in (r.0, services_attempt ids r.1)

  -- `outcome` and `detail` of a step; what is thrown on the way makes it fail.
  unfoldable pub try_step : PreparationStep → W → W × Attempt
  try_step PreparationStep.stop_registered_services w = stop_services ports.services w
  try_step PreparationStep.drain_active_tasks w =
      let r = ports.tasks o at w in (r.0, controller_attempt r.1)
  try_step PreparationStep.complete_backup w =
      let r = ports.backup o at w in (r.0, controller_attempt r.1)
  try_step k w = let r = ports.filesystem o at w in (r.0, controller_attempt r.1)

  abbrev pub fail_step :
      PreparationStep → PreparationFailure → Progress → Action W PreparationError (Progress × Bool)
  fail_step k f p = do
    (p', done) ← event EventKind.preparation_failed (failed_at k f) p
    lift (ok (p', false))

  abbrev pub record_step :
      PreparationStep → Progress × Bool → Action W PreparationError (Progress × Bool)
  record_step k (p, true) = lift (ok (p, true))
  record_step k (p, false) = fail_step k PreparationFailure.event_recording_failed p

  abbrev pub after_attempt :
      PreparationStep → Attempt → Progress → Action W PreparationError (Progress × Bool)
  after_attempt k a p =
      if is_unfinished (attempt_outcome a)
      then fail_step k (attempt_failure a) p
      else event (completed_kind k) (completed_detail a) p >>= record_step k

  abbrev pub step_of :
      PreparationStep
      → StepOutcome
      → Option StepDetail
      → Progress
      → Action W PreparationError Progress
  step_of k outcome detail p = do
    s ← lift (map_error step_failed (create_step_result d k at at outcome detail))
    lift (ok (with_step s p))

  -- A step of the plan; `false` says that the preparation ends here.
  unfoldable pub run_step : PreparationStep → Progress → Action W PreparationError (Progress × Bool)
  unfolding event try_step
  run_step k p = if is_recording d k then lift (ok (p, true)) else λ w.
      let (w', a) = try_step k w in
      (step_of k (attempt_outcome a) (some (attempt_detail k a)) p >>= after_attempt k a) w'

  abbrev pub go_on :
      (Progress → Action W PreparationError (Progress × Bool))
      → Progress × Bool
      → Action W PreparationError (Progress × Bool)
  go_on f (p, true) = f p
  go_on f (p, false) = lift (ok (p, false))

  unfoldable pub run_steps :
      List PreparationStep → Progress → Action W PreparationError (Progress × Bool)
  unfolding run_step
  run_steps [] p = lift (ok (p, true))
  run_steps (k ∷ ks) p = run_step k p >>= go_on (run_steps ks)

  abbrev pub report_of :
      Option PreparationPlan
      → Progress
      → Option ReadinessDecision
      → PreparationOutcome
      → Action W PreparationError PreparationReport
  report_of plan p final outcome = lift (
      map_error report_failed (
        create_preparation_report d compare (record {
          occurrence = o;
          processed_at = at;
          initial_decision = initial;
          plan = plan;
          steps = p.steps;
          events = p.events;
          final_decision = final;
          outcome = outcome;
        })))

  abbrev pub finish_run :
      PreparationPlan
      → ReadinessDecision
      → Progress × Bool
      → Action W PreparationError PreparationReport
  finish_run plan final (p, false) = do
    (p', done) ←
        event EventKind.preparation_failed
          (failed_at PreparationStep.record_final_readiness
            PreparationFailure.event_recording_failed)
          p
    report_of (some plan) p' (some final) incomplete
  finish_run plan final (p, true) = do
    p' ← step_of PreparationStep.record_final_readiness StepOutcome.completed none p
    report_of (some plan) p' (some final) (if is_approved final then prepared else incomplete)

  abbrev pub reevaluate :
      PreparationPlan → Progress × Bool → Action W PreparationError PreparationReport
  reevaluate plan (p, false) = report_of (some plan) p none incomplete
  reevaluate plan (p, true) = do
    final ← evaluate_with d compare ports confirmation o at
    p' ← step_of PreparationStep.reevaluate_readiness StepOutcome.completed none p
    event (final_kind final) (final_detail final) p' >>= finish_run plan final

  abbrev pub complete_run :
      PreparationPlan → Progress × Bool → Action W PreparationError PreparationReport
  complete_run plan (p, false) = report_of (some plan) p none incomplete
  complete_run plan (p, true) = do
    p' ← step_of PreparationStep.record_preparation_completed StepOutcome.completed none p
    event EventKind.preparation_completed no_detail p' >>= reevaluate plan

  abbrev pub start_run :
      PreparationPlan → Progress × Bool → Action W PreparationError PreparationReport
  start_run plan (p, false) = report_of (some plan) p none incomplete
  start_run plan (p, true) = run_steps plan.steps p >>= complete_run plan

  unfoldable pub run_plan : PreparationPlan → Action W PreparationError PreparationReport
  unfolding run_steps
  run_plan plan = event EventKind.preparation_started no_detail no_progress >>= start_run plan

  abbrev pub prepare_planned : Planning → Action W PreparationError PreparationReport
  prepare_planned (Planning.blocked r) = report_of none no_progress none PreparationOutcome.blocked
  prepare_planned (planned plan) =
      if is_not_empty plan.steps
      then run_plan plan
      else report_of (some plan) no_progress none not_required

module _ (d : Dates) (compare : Str → Str → ℤ) {W : Type 0} (ports : PreparationPorts W)
    (confirmation : Option (Reader W Bool)) where
  abbrev pub initial_of :
      Occurrence → Str → Option ReadinessDecision → Action W PreparationError ReadinessDecision
  initial_of o at (some supplied) = lift (ok supplied)
  initial_of o at none = evaluate_with d compare ports confirmation o at

  unfoldable pub prepare_at :
      Occurrence → Str → Option ReadinessDecision → Action W PreparationError PreparationReport
  unfolding run_plan
  prepare_at input at supplied = do
    o ← lift (
        map_error evaluation_failed
          (occurrence_of (create_occurrence d input.scheduled_for input.wake_scheduled_for)))
    initial ← initial_of o at supplied
    planning ← lift (map_error planning_failed (create_preparation_plan d compare o at initial))
    prepare_planned d compare ports confirmation o at initial planning
