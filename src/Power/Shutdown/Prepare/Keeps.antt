-- ===== src/Power/Shutdown/Prepare/Keeps.antt =====
-- What a preparation leaves alone.
use atlas_manager.Power.Shutdown.Prepare.KeptSteps.{
  KeepsOption, KeepsPreparation, evaluate_with-Keeps, event-Keeps, step_of-Keeps, run_steps-Keeps,
}
use atlas_manager.Power.Shutdown.Action.{Keeps, after-Keeps, >>=-Keeps, lift, ◌>>=◌}
use atlas_manager.Power.Shutdown.Attempt.{
  evaluation_failed, planning_failed, PreparationPorts, Progress, no_progress, final_kind,
  final_detail,
}
use atlas_manager.Power.Shutdown.Prepare.{
  prepare_planned, initial_of, prepare_at, evaluate_with, event, step_of, run_steps, report_of,
  finish_run, reevaluate, complete_run, start_run, run_plan,
}
use atlas_manager.Power.Shutdown.Plan.{
  Planning, planned, create_preparation_plan, PreparationPlan, is_approved,
}
use atlas_manager.Power.Shutdown.Readiness.{occurrence_of, is_not_empty, Reader}
use atlas_manager.Power.Interval.{create_occurrence}
use atlas_manager.Power.Shutdown.Readiness.Keeps.{KeepsReader}
use atlas_manager.Base.{Bool, true, false, Str, Option, some, none, if◌then◌else◌}
use atlas_manager.Base.Int.{ℤ}
use atlas_manager.Base.Platform.{Dates}
use atlas_manager.Power.Tick.{Occurrence}
use atlas_manager.Power.Shutdown.Blocker.{ReadinessDecision}
use atlas_manager.Power.Shutdown.Records.{
  PreparationStep, EventKind, PreparationFailure, StepOutcome, no_detail, failed_at,
}
use atlas_manager.Power.Shutdown.Report.{prepared, incomplete, not_required, map_error}

module _ (d : Dates) (compare : Str → Str → ℤ) {W : Type 0} (P : W → Type 0)
    (ports : PreparationPorts W) (confirmation : Option (Reader W Bool))
    (keeps : KeepsPreparation P ports) (confirms : KeepsOption (KeepsReader P) confirmation) where
  module _ (o : Occurrence) (at : Str) (initial : ReadinessDecision) where
    finish_run-Keeps :
        (plan : PreparationPlan) (f : ReadinessDecision) (q : Progress × Bool)
        → Keeps P (finish_run d compare ports confirmation o at initial plan f q)
    finish_run-Keeps plan f (p, false) w h =
        let fail =
          event d compare ports confirmation o at initial EventKind.preparation_failed
            (failed_at PreparationStep.record_final_readiness
              PreparationFailure.event_recording_failed)
            p in
        after-Keeps P
          (λ a.
            report_of d compare ports confirmation o at initial (some plan) a.0 (some f) incomplete)
          (fail w)
          (event-Keeps d compare P ports confirmation keeps confirms o at initial
            EventKind.preparation_failed
            (failed_at PreparationStep.record_final_readiness
              PreparationFailure.event_recording_failed)
            p w h)
          (λ a v k. k)
    finish_run-Keeps plan f (p, true) w h =
        after-Keeps P
          (λ a.
            report_of d compare ports confirmation o at initial (some plan) a (some f)
              (if is_approved f then prepared else incomplete))
          (step_of d compare ports confirmation o at initial PreparationStep.record_final_readiness
            StepOutcome.completed none p w)
          (step_of-Keeps d compare P ports confirmation keeps confirms o at initial
            PreparationStep.record_final_readiness StepOutcome.completed none p w h)
          (λ a v k. k)

    reevaluate-Keeps :
        (plan : PreparationPlan) (q : Progress × Bool)
        → Keeps P (reevaluate d compare ports confirmation o at initial plan q)
    reevaluate-Keeps plan (p, false) w h = h
    reevaluate-Keeps plan (p, true) w h =
        (>>=-Keeps P (evaluate_with d compare ports confirmation o at)
            (λ f.
              step_of d compare ports confirmation o at initial PreparationStep.reevaluate_readiness
                StepOutcome.completed none p
              >>= λ a.
                  event d compare ports confirmation o at initial (final_kind f) (final_detail f) a
                  >>= finish_run d compare ports confirmation o at initial plan f)
            (evaluate_with-Keeps d compare P ports confirmation keeps confirms o at)
            (λ f.
              >>=-Keeps P
                (step_of d compare ports confirmation o at initial
                  PreparationStep.reevaluate_readiness StepOutcome.completed none p)
                (λ a.
                  event d compare ports confirmation o at initial (final_kind f) (final_detail f) a
                  >>= finish_run d compare ports confirmation o at initial plan f)
                (step_of-Keeps d compare P ports confirmation keeps confirms o at initial
                  PreparationStep.reevaluate_readiness StepOutcome.completed none p)
                (λ a.
                  >>=-Keeps P
                    (event d compare ports confirmation o at initial (final_kind f) (final_detail f)
                      a)
                    (finish_run d compare ports confirmation o at initial plan f)
                    (event-Keeps d compare P ports confirmation keeps confirms o at initial
                      (final_kind f) (final_detail f) a)
                    (finish_run-Keeps plan f))))
          w h

    complete_run-Keeps :
        (plan : PreparationPlan) (q : Progress × Bool)
        → Keeps P (complete_run d compare ports confirmation o at initial plan q)
    complete_run-Keeps plan (p, false) w h = h
    complete_run-Keeps plan (p, true) w h =
        (>>=-Keeps P
            (step_of d compare ports confirmation o at initial
              PreparationStep.record_preparation_completed StepOutcome.completed none p)
            (λ a.
              event d compare ports confirmation o at initial EventKind.preparation_completed
                no_detail a
              >>= reevaluate d compare ports confirmation o at initial plan)
            (step_of-Keeps d compare P ports confirmation keeps confirms o at initial
              PreparationStep.record_preparation_completed StepOutcome.completed none p)
            (λ a.
              >>=-Keeps P
                (event d compare ports confirmation o at initial EventKind.preparation_completed
                  no_detail a)
                (reevaluate d compare ports confirmation o at initial plan)
                (event-Keeps d compare P ports confirmation keeps confirms o at initial
                  EventKind.preparation_completed no_detail a)
                (reevaluate-Keeps plan)))
          w h

    start_run-Keeps :
        (plan : PreparationPlan) (q : Progress × Bool)
        → Keeps P (start_run d compare ports confirmation o at initial plan q)
    start_run-Keeps plan (p, false) w h = h
    start_run-Keeps plan (p, true) w h =
        (>>=-Keeps P (run_steps d compare ports confirmation o at initial plan.steps p)
            (complete_run d compare ports confirmation o at initial plan)
            (run_steps-Keeps d compare P ports confirmation keeps confirms o at initial plan.steps
              p)
            (complete_run-Keeps plan))
          w h

    prepare_planned-Keeps :
        (p : Planning) → Keeps P (prepare_planned d compare ports confirmation o at initial p)
    unfolding run_plan
    prepare_planned-Keeps (Planning.blocked x) w h = h
    prepare_planned-Keeps (planned plan) w h = go (is_not_empty plan.steps)
      where
        go :
            (b : Bool)
            → P
                ((if b
                    then run_plan d compare ports confirmation o at initial plan
                    else report_of d compare ports confirmation o at initial
                        (some plan)
                        no_progress
                        none
                        not_required)
                  w).0
        go true =
            after-Keeps P (start_run d compare ports confirmation o at initial plan)
              (event d compare ports confirmation o at initial EventKind.preparation_started
                no_detail no_progress w)
              (event-Keeps d compare P ports confirmation keeps confirms o at initial
                EventKind.preparation_started no_detail no_progress w h)
              (start_run-Keeps plan)
        go false = h

  initial_of-Keeps :
      (o : Occurrence) (at : Str) (s : Option ReadinessDecision)
      → Keeps P (initial_of d compare ports confirmation o at s)
  initial_of-Keeps o at (some s) w h = h
  initial_of-Keeps o at none w h =
      evaluate_with-Keeps d compare P ports confirmation keeps confirms o at w h

  pub prepare_at-Keeps :
      (o : Occurrence) (at : Str) (s : Option ReadinessDecision)
      → Keeps P (prepare_at d compare ports confirmation o at s)
  unfolding prepare_at
  prepare_at-Keeps o at s w h =
      after-Keeps P
        (λ v. initial_of d compare ports confirmation v at s >>= λ i.
          lift (map_error planning_failed (create_preparation_plan d compare v at i))
          >>= prepare_planned d compare ports confirmation v at i)
        (
          w,
          map_error evaluation_failed
              (occurrence_of (create_occurrence d o.scheduled_for o.wake_scheduled_for)),
        )
        h
        (λ v.
          >>=-Keeps P (initial_of d compare ports confirmation v at s)
            (λ i.
              lift (map_error planning_failed (create_preparation_plan d compare v at i))
              >>= prepare_planned d compare ports confirmation v at i)
            (initial_of-Keeps v at s)
            (λ i x k.
              after-Keeps P (prepare_planned d compare ports confirmation v at i)
                (x, map_error planning_failed (create_preparation_plan d compare v at i)) k
                (prepare_planned-Keeps v at i)))
