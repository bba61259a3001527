-- ===== src/Power/Shutdown/Examples.antt =====
-- A shutdown for which one service has to be stopped first.
use atlas_manager.Base.{
  ℕ, zero, suc, ◌≡◌, refl, ◌↔◌, true, false, [], ◌∷◌, Str, lit, str_eq, some, none, Result, ok, err,
  if◌then◌else◌, ◌==◌, ◌<◌, ◌⊎◌, arith,
}
use atlas_manager.Base.Int.{ℤ, pos, negsuc, ◌-ℤ◌}
use atlas_manager.Base.Pattern.{is_slug_from}
use atlas_manager.Base.Sort.{sort_by, insert_by}
use atlas_manager.Base.Platform.{Dates, is_canonical_timestamp}
use atlas_manager.Power.Tick.{Occurrence, ExecutionOutcome}
use atlas_manager.Power.Interval.{create_occurrence}
use atlas_manager.Power.Shutdown.Blocker.{
  Area, Blocker, BlockerCode, ReadinessDecision, plain_blocker, create_blocker, create_decision,
  sort_blockers,
}
use atlas_manager.Power.Shutdown.Records.{
  RecordError, ServiceOutcome, create_event, create_step_result, create_service_result,
  create_service_step, are_all_different, detail_time,
}
use atlas_manager.Power.Shutdown.Plan.{
  is_approved, create_plan, create_preparation_plan, same_decision, same_blockers,
}
use atlas_manager.Power.Shutdown.Report.{create_preparation_report}
use atlas_manager.Power.Shutdown.Readiness.{Readers, ready, evaluate_at, is_before, is_at_or_after}
use atlas_manager.Power.Shutdown.Readiness.Laws.{IsDue, IsClear, evaluate_at-approved}
use atlas_manager.Power.Shutdown.Attempt.{
  PreparationPorts, step_failed, service_ids_of, is_invalid_services,
}
use atlas_manager.Power.Shutdown.Prepare.{prepare_at, evaluate_with}
use atlas_manager.Power.Shutdown.Wake.{
  WakeState, WakeOperation, WakeOutcome, ShutdownOutcome, create_wake_mutation,
  create_shutdown_result,
}
use atlas_manager.Power.Shutdown.Result.{ExecutionResult, plain_result, create_execution_result}
use atlas_manager.Power.Shutdown.Execute.{
  ExecutionPorts, ExecutionOptions, ExecutionError, claimed, execute_core,
}
use atlas_manager.Power.Shutdown.Execute.Laws.{Executes, execute_core-Executes}
use atlas_manager.Power.Shutdown.Execute.Keeps.{HasRequested, execute_core-HasRequested}

abbrev evening : Str
evening = lit "2026-01-01T22:00:00.000Z"

abbrev morning : Str
morning = lit "2026-01-02T08:00:00.000Z"

abbrev iso : ℤ → Str
iso (pos zero) = evening
iso (pos (suc n)) = morning
iso (negsuc n) = detail_time

abbrev clock : Dates
clock = record {
  parse = λ s.
      if str_eq s evening
      then some (pos 0)
      else if str_eq s morning
      then some (pos 36000000)
      else some (negsuc 0);
  to_iso = iso;
}

abbrev due : Occurrence
due = record { scheduled_for = evening; wake_scheduled_for = morning }

abbrev same : Str → Str → ℤ
same s t = pos 0

abbrev running : Blocker
running = record (plain_blocker Area.services BlockerCode.service_running) {
  service_id = some (lit "db");
}

-- The world is the number of the last effect: 1 if the service is stopped, then the claim, the alarm and the
-- shutdown.
abbrev readers : Readers ℕ
readers = record {
  confirmation = λ o t w. (w, ok true);
  services = λ o t w. (w, ok (if w == 0 then running ∷ [] else []));
  active_tasks = λ o t w. (w, ok ready);
  backups = λ o t w. (w, ok ready);
  filesystem = λ o t w. (w, ok ready);
  event_recording = λ o t w. (w, ok ready);
}

abbrev without_services : PreparationPorts ℕ
without_services = record {
  readiness = readers;
  services = none;
  tasks = λ o t w. (w, err tt);
  backup = λ o t w. (w, err tt);
  filesystem = λ o t w. (w, err tt);
  record_event = λ e w. (w, ok tt);
}

abbrev preparation : PreparationPorts ℕ
preparation = record without_services {
  services = some (λ o t ids w. (
    1,
    ok (record {
      steps = record { service_id = lit "db"; outcome = ServiceOutcome.stopped } ∷ [];
      successful = true;
    }),
  ));
}

abbrev ports : ExecutionPorts ℕ
ports = record {
  readiness = some readers;
  preparation = some preparation;
  claim = λ o w. (2, ok claimed);
  schedule_wake = λ at wake w. (
    3,
    ok (record {
      operation = WakeOperation.schedule;
      requested_at = at;
      outcome = WakeOutcome.scheduled;
      before = WakeState.not_scheduled;
      later = WakeState.scheduled wake;
    }),
  );
  request_shutdown =
      λ at w. (4, ok (record { requested_at = at; outcome = ShutdownOutcome.simulated }));
}

abbrev options : ExecutionOptions ℕ
options = record { confirmation = none; prepares = true }

abbrev result_or : ExecutionResult → Result ExecutionError ExecutionResult → ExecutionResult
result_or r (ok x) = x
result_or r (err e) = r

abbrev done : ExecutionResult
done =
    result_or (plain_result due evening ExecutionOutcome.not_due)
      (execute_core clock same ports options due evening 0).1

ran :
    (execute_core clock same ports options due evening 0 ≡ (4, ok done))
    × (done.outcome ≡ ExecutionOutcome.executed)
unfolding execute_core prepare_at evaluate_with evaluate_at create_decision create_blocker
    sort_blockers sort_by insert_by create_preparation_plan create_plan create_event
    create_step_result create_service_result create_service_step are_all_different
    create_preparation_report create_execution_result create_wake_mutation create_shutdown_result
    create_occurrence is_canonical_timestamp str_eq service_ids_of is_invalid_services is_slug_from
    same_decision same_blockers ◌-ℤ◌
ran = (refl, refl)

execute_core-Executes_example :
    (is_before (clock.parse evening) (clock.parse due.scheduled_for) ≡ false)
    × (is_at_or_after (clock.parse evening) (clock.parse due.wake_scheduled_for) ≡ false)
    × Executes clock same ports options due evening ports.readiness 0 4
execute_core-Executes_example =
    execute_core-Executes clock same ports options due evening 0 ran.0 ran.1

-- The services cannot be stopped, no effect comes after, and the shutdown, which is the fourth, is not requested.
abbrev stuck : ExecutionPorts ℕ
stuck = record ports { preparation = some without_services }

execute_core-HasRequested_example :
    ((execute_core clock same stuck options due evening 0).0 < 4)
    ⊎ HasRequested (execute_core clock same stuck options due evening 0).1
execute_core-HasRequested_example =
    execute_core-HasRequested clock same (λ n. n < 4) stuck options
      (
        (
          (λ o t w h. h),
          (λ o t w h. h),
          (λ o t w h. h),
          (λ o t w h. h),
          (λ o t w h. h),
          (λ o t w h. h),
        ),
        (
          (
            (λ o t w h. h),
            (λ o t w h. h),
            (λ o t w h. h),
            (λ o t w h. h),
            (λ o t w h. h),
            (λ o t w h. h),
          ),
          tt,
          (λ o t w h. h),
          (λ o t w h. h),
          (λ o t w h. h),
          (λ e w h. h),
        ),
        (λ o w h. omega arith),
        (λ at wake w h. omega arith),
      )
      tt due evening 0 (omega arith)

valid : IsDue clock due evening
unfolding create_occurrence is_canonical_timestamp str_eq
valid = (refl, refl)

evaluate_at-approved_example :
    (f : ReadinessDecision) × ((evaluate_at clock same readers readers.confirmation due evening 1).1
      ≡ ok f)
    × ((is_approved f ≡ true) ↔ IsClear clock same readers readers.confirmation due evening 1)
evaluate_at-approved_example =
    evaluate_at-approved clock same readers readers.confirmation due evening 1 valid

-- A preparation that has no controller of the services throws at the check of its own step, and returns no
-- report that it is incomplete.
throws_without_services :
    prepare_at clock same without_services none due evening none 0
    ≡ (0, err (step_failed RecordError.invalid_service_steps))
unfolding prepare_at evaluate_with evaluate_at create_decision create_blocker sort_blockers sort_by
    insert_by create_preparation_plan create_plan create_event create_step_result
    create_service_result create_occurrence is_canonical_timestamp str_eq service_ids_of
    is_slug_from ◌-ℤ◌
throws_without_services = refl
