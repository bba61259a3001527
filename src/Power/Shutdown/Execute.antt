-- ===== src/Power/Shutdown/Execute.antt =====
-- application/execute-machine-shutdown-occurrence.ts, `executeCore`: the occurrence is claimed, the wake alarm is
-- set and the shutdown is requested, in this order, after the readiness and the preparation.
pub mod Claim
pub mod Keeps
pub mod Laws
use atlas_manager.Base.{
  Bool, true, false, not, ◌||◌, ◌&&◌, Str, Option, some, none, Result, ok, err, if◌then◌else◌,
}
use atlas_manager.Base.Int.{ℤ}
use atlas_manager.Base.Platform.{Dates}
use atlas_manager.Power.Tick.{Occurrence, ExecutionOutcome}
use atlas_manager.Power.Shutdown.Action.{Action, lift, after, ◌>>=◌, or_else}
use atlas_manager.Power.Shutdown.Blocker.{ReadinessDecision}
use atlas_manager.Power.Shutdown.Readiness.{
  Reader, Readers, EvaluationError, evaluate_at, is_before, is_at_or_after,
}
use atlas_manager.Power.Shutdown.Plan.{is_approved}
use atlas_manager.Power.Shutdown.Report.{PreparationOutcome, PreparationReport, map_error}
use atlas_manager.Power.Shutdown.Attempt.{PreparationPorts, PreparationError}
use atlas_manager.Power.Shutdown.Prepare.{prepare_at}
use atlas_manager.Power.Shutdown.Wake.{
  WakeMutation, ShutdownResult, create_wake_mutation, create_shutdown_result,
}
use atlas_manager.Power.Shutdown.Result.{
  ExecutionResult, ResultFault, plain_result, create_execution_result,
}

pub data ClaimOutcome : Type 0 where
  claimed duplicate : ClaimOutcome

pub record ExecutionPorts (W : Type 0) : Type 0 where
  pub readiness : Option (Readers W)
  pub preparation : Option (PreparationPorts W)
  pub claim : Occurrence → Action W (Unit {0}) ClaimOutcome
  pub schedule_wake : Str → Str → Action W (Unit {0}) WakeMutation
  pub request_shutdown : Str → Action W (Unit {0}) ShutdownResult

pub data ExecutionError : Type 0 where
  claim_failed wake_alarm_preparation_failed : ExecutionError
  shutdown_failed_after_wake_scheduled : ExecutionError
  readiness_failed : EvaluationError → ExecutionError
  preparation_failed : PreparationError → ExecutionError
  result_failed : ResultFault → ExecutionError

-- The options: a reader of the confirmation, and `automaticallyPrepare !== false`.
pub record ExecutionOptions (W : Type 0) : Type 0 where
  pub confirmation : Option (Reader W Bool)
  pub prepares : Bool

abbrev pub has_value : {A : Type 0} → Option A → Bool
has_value none = false
has_value (some a) = true

abbrev pub checked :
    {W E A B : Type 0} → (A → Result E B) → W × Result (Unit {0}) A → W × Result (Unit {0}) B
checked create (w, err e) = (w, err e)
checked create (w, ok a) = (w, map_error (λ e. tt) (create a))

module _ (d : Dates) (compare : Str → Str → ℤ) {W : Type 0} (ports : ExecutionPorts W)
    (options : ExecutionOptions W) (o : Occurrence) (at : Str) where
  abbrev pub end_with : ExecutionResult → Action W ExecutionError ExecutionResult
  end_with r = lift (map_error result_failed (create_execution_result d compare r))

  abbrev pub executed_result :
      Option PreparationReport → WakeMutation → ShutdownResult → ExecutionResult
  executed_result report wake shutdown = record (plain_result o at ExecutionOutcome.executed) {
    preparation_report = report;
    wake_mutation = some wake;
    shutdown_result = some shutdown;
  }

  abbrev pub shut_down :
      Option PreparationReport → WakeMutation → Action W ExecutionError ExecutionResult
  shut_down report wake = do
    shutdown ← λ w.
        or_else shutdown_failed_after_wake_scheduled
          (checked (create_shutdown_result d) (ports.request_shutdown at w))
    λ w.
        or_else shutdown_failed_after_wake_scheduled
          (w, create_execution_result d compare (executed_result report wake shutdown))

  abbrev pub after_claim :
      Option PreparationReport → ClaimOutcome → Action W ExecutionError ExecutionResult
  after_claim report duplicate = end_with (plain_result o at ExecutionOutcome.duplicate)
  after_claim report claimed = do
    wake ← λ w.
        or_else wake_alarm_preparation_failed
          (checked (create_wake_mutation d) (ports.schedule_wake at o.wake_scheduled_for w))
    shut_down report wake

  unfoldable pub claim_and_shut_down :
      Option PreparationReport → Action W ExecutionError ExecutionResult
  claim_and_shut_down report = (λ w. or_else claim_failed (ports.claim o w)) >>= after_claim report

  abbrev pub rejected_result : ReadinessDecision → Option PreparationReport → ExecutionResult
  rejected_result decision report = record (plain_result o at ExecutionOutcome.rejected) {
    decision = some decision;
    preparation_report = report;
  }

  abbrev pub after_preparation :
      ReadinessDecision
      → PreparationReport
      → PreparationOutcome
      → Action W ExecutionError ExecutionResult
  after_preparation decision report PreparationOutcome.blocked =
      end_with (rejected_result decision (some report))
  after_preparation decision report PreparationOutcome.incomplete =
      end_with (record (plain_result o at ExecutionOutcome.preparation_incomplete) {
        preparation_report = some report;
      })
  after_preparation decision report _ = claim_and_shut_down (some report)

  abbrev pub prepare_with :
      PreparationPorts W → ReadinessDecision → Action W ExecutionError PreparationReport
  prepare_with p decision w =
      let r = prepare_at d compare p options.confirmation o at (some decision) w in
      (r.0, map_error preparation_failed r.1)

  abbrev pub prepare_or_claim :
      ReadinessDecision
      → Option (PreparationPorts W)
      → Bool
      → Action W ExecutionError ExecutionResult
  prepare_or_claim decision (some p) true = do
    report ← prepare_with p decision
    after_preparation decision report report.outcome
  prepare_or_claim decision (some p) false = claim_and_shut_down none
  prepare_or_claim decision none prepares = claim_and_shut_down none

  -- A rejection ends the execution if nothing is prepared.
  abbrev pub after_decision : ReadinessDecision → Action W ExecutionError ExecutionResult
  after_decision decision =
      if not (is_approved decision) && (not (has_value ports.preparation) || not options.prepares)
      then end_with (rejected_result decision none)
      else prepare_or_claim decision ports.preparation options.prepares

  abbrev pub reader_of : Readers W → Option (Reader W Bool) → Reader W Bool
  reader_of r none = r.confirmation
  reader_of r (some c) = c

  abbrev pub evaluate_first : Readers W → Action W ExecutionError ReadinessDecision
  evaluate_first r w =
      let e = evaluate_at d compare r (reader_of r options.confirmation) o at w in
      (e.0, map_error readiness_failed e.1)

  abbrev pub execute_due : Option (Readers W) → Action W ExecutionError ExecutionResult
  execute_due none = claim_and_shut_down none
  execute_due (some r) = evaluate_first r >>= after_decision

  unfoldable pub execute_core : Action W ExecutionError ExecutionResult
  unfolding claim_and_shut_down
  execute_core =
      if is_before (d.parse at) (d.parse o.scheduled_for)
      then end_with (plain_result o at ExecutionOutcome.not_due)
      else if is_at_or_after (d.parse at) (d.parse o.wake_scheduled_for)
      then end_with (plain_result o at ExecutionOutcome.stale)
      else execute_due ports.readiness
