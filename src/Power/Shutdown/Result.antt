-- ===== src/Power/Shutdown/Result.antt =====
-- domain/machine-shutdown-occurrence-execution-result.ts: what the execution of an occurrence reports.
pub mod Laws
use atlas_manager.Base.{
  Bool, true, false, not, ◌||◌, Str, str_eq, Option, some, none, Result, ok, err, ◌>>=◌, ◌>>◌,
  throw_if,
}
use atlas_manager.Base.Int.{ℤ}
use atlas_manager.Base.Values.{Value}
use atlas_manager.Base.Platform.{Dates, is_canonical_timestamp}
use atlas_manager.Power.Tick.{Occurrence, ExecutionOutcome}
use atlas_manager.Power.Interval.{create_occurrence}
use atlas_manager.Power.Shutdown.Blocker.{ReadinessDecision, or_throw}
use atlas_manager.Power.Shutdown.Plan.{recreate_decision, same_occurrence, is_approved}
use atlas_manager.Power.Shutdown.Report.{
  PreparationOutcome, PreparationReport, create_preparation_report, if_present, is_present,
}
use atlas_manager.Power.Shutdown.Wake.{
  WakeState, WakeOperation, WakeOutcome, WakeMutation, ShutdownResult, create_wake_mutation,
  create_shutdown_result,
}

pub record ExecutionResult : Type 0 where
  pub occurrence : Occurrence
  pub processed_at : Str
  pub outcome : ExecutionOutcome
  pub decision : Option ReadinessDecision
  pub preparation_report : Option PreparationReport
  pub wake_mutation : Option WakeMutation
  pub shutdown_result : Option ShutdownResult

-- A result with the three common fields.
abbrev pub plain_result : Occurrence → Str → ExecutionOutcome → ExecutionResult
plain_result o at outcome = record {
  occurrence = o;
  processed_at = at;
  outcome = outcome;
  decision = none;
  preparation_report = none;
  wake_mutation = none;
  shutdown_result = none;
}

pub data ResultFault : Type 0 where
  invalid_occurrence invalid_processed_at : ResultFault
  missing_effect unexpected_effect invalid_effect : ResultFault

abbrev pub is_report_incomplete : Option PreparationReport → Bool
is_report_incomplete none = false
is_report_incomplete (some r) = elim r.outcome [ PreparationOutcome.incomplete ↦ true | _ ↦ false ]

abbrev pub is_report_absent_or_blocked : Option PreparationReport → Bool
is_report_absent_or_blocked none = true
is_report_absent_or_blocked (some r) = elim r.outcome [
  | PreparationOutcome.blocked ↦ true
  | _ ↦ false
]

abbrev pub is_report_absent_or_ready : Option PreparationReport → Bool
is_report_absent_or_ready none = true
is_report_absent_or_ready (some r) = elim r.outcome [
  | PreparationOutcome.not_required ↦ true
  | PreparationOutcome.prepared ↦ true
  | _ ↦ false
]

abbrev pub is_schedule : WakeOperation → Bool
is_schedule WakeOperation.schedule = true
is_schedule WakeOperation.cancel = false

abbrev pub is_set : WakeOutcome → Bool
is_set WakeOutcome.scheduled = true
is_set WakeOutcome.replaced = true
is_set WakeOutcome.unchanged = true
is_set _ = false

abbrev pub is_scheduled_for : Str → WakeState → Bool
is_scheduled_for t (WakeState.scheduled s) = str_eq s t
is_scheduled_for t _ = false

-- The alarm is not the one of the occurrence, or not of the time of the execution.
abbrev pub is_other_wake : Occurrence → Str → WakeMutation → Bool
is_other_wake o at m =
    not (is_schedule m.operation)
    || (not (is_set m.outcome)
        || (not (str_eq m.requested_at at) || not (is_scheduled_for o.wake_scheduled_for m.later)))

abbrev pub is_other_effect : ExecutionResult → WakeMutation → ShutdownResult → Bool
is_other_effect r wake shutdown =
    is_other_wake r.occurrence r.processed_at wake
    || not (str_eq shutdown.requested_at r.processed_at)

-- There is no report, or there is what an incomplete preparation does not have.
abbrev pub is_not_incomplete : ExecutionResult → Bool
is_not_incomplete r =
    not (is_present r.preparation_report)
    || (is_present r.wake_mutation || (is_present r.shutdown_result || is_present r.decision))

abbrev pub has_effect : ExecutionResult → Bool
has_effect r =
    is_present r.wake_mutation
    || (is_present r.shutdown_result || (is_present r.decision || is_present r.preparation_report))

module _ (d : Dates) (compare : Str → Str → ℤ) where
  abbrev pub is_other_decision : Occurrence → Str → ReadinessDecision → Bool
  is_other_decision o at r =
      is_approved r || (not (str_eq r.evaluated_at at) || not (same_occurrence r.occurrence o))

  abbrev pub incomplete_result : ExecutionResult → Result ResultFault ExecutionResult
  incomplete_result r = do
    throw_if (is_not_incomplete r) invalid_effect
    throw_if (not (is_report_incomplete r.preparation_report)) invalid_effect
    ok (record (plain_result r.occurrence r.processed_at r.outcome) {
      preparation_report = r.preparation_report;
    })

  abbrev pub rejected_by : ExecutionResult → ReadinessDecision → Result ResultFault ExecutionResult
  rejected_by r decision = do
    throw_if (is_other_decision r.occurrence r.processed_at decision) invalid_effect
    throw_if (not (is_report_absent_or_blocked r.preparation_report)) invalid_effect
    ok (record (plain_result r.occurrence r.processed_at r.outcome) {
      decision = some decision;
      preparation_report = r.preparation_report;
    })

  abbrev pub rejected_with :
      ExecutionResult → Option ReadinessDecision → Result ResultFault ExecutionResult
  rejected_with r none = err invalid_effect
  rejected_with r (some input) =
      or_throw (recreate_decision d compare input) invalid_effect >>= rejected_by r

  abbrev pub rejected_result : ExecutionResult → Result ResultFault ExecutionResult
  rejected_result r = do
    throw_if (is_present r.wake_mutation || is_present r.shutdown_result) invalid_effect
    rejected_with r r.decision

  abbrev pub bare_result : ExecutionResult → Result ResultFault ExecutionResult
  bare_result r = do
    throw_if (has_effect r) unexpected_effect
    ok (plain_result r.occurrence r.processed_at r.outcome)

  abbrev pub executed_by :
      ExecutionResult → WakeMutation → ShutdownResult → Result ResultFault ExecutionResult
  executed_by r wake shutdown = do
    throw_if (is_other_effect r wake shutdown) invalid_effect
    throw_if (not (is_report_absent_or_ready r.preparation_report)) invalid_effect
    ok (record (plain_result r.occurrence r.processed_at r.outcome) {
      preparation_report = r.preparation_report;
      wake_mutation = some wake;
      shutdown_result = some shutdown;
    })

  abbrev pub executed_after :
      ExecutionResult → ShutdownResult → WakeMutation → Result ResultFault ExecutionResult
  executed_after r s wake =
      or_throw (create_shutdown_result d s) invalid_effect >>= executed_by r wake

  abbrev pub executed_with :
      ExecutionResult
      → Option WakeMutation
      → Option ShutdownResult
      → Result ResultFault ExecutionResult
  executed_with r none s = err missing_effect
  executed_with r (some m) none = err missing_effect
  executed_with r (some m) (some s) =
      or_throw (create_wake_mutation d m) invalid_effect >>= executed_after r s

  abbrev pub result_of : ExecutionOutcome → ExecutionResult → Result ResultFault ExecutionResult
  result_of ExecutionOutcome.preparation_incomplete r = incomplete_result r
  result_of ExecutionOutcome.rejected r = rejected_result r
  result_of ExecutionOutcome.executed r = executed_with r r.wake_mutation r.shutdown_result
  result_of _ r = bare_result r

  abbrev pub result_with :
      ExecutionResult → Occurrence → Option PreparationReport → Result ResultFault ExecutionResult
  result_with r o report =
      result_of r.outcome (record r { occurrence = o; preparation_report = report })

  abbrev pub result_after : ExecutionResult → Occurrence → Result ResultFault ExecutionResult
  result_after r o = do
    throw_if (not (is_canonical_timestamp d (Value.string r.processed_at))) invalid_processed_at
    report ←
        or_throw (if_present (create_preparation_report d compare) r.preparation_report)
          invalid_effect
    result_with r o report

  unfoldable pub create_execution_result : ExecutionResult → Result ResultFault ExecutionResult
  create_execution_result r =
      or_throw (create_occurrence d r.occurrence.scheduled_for r.occurrence.wake_scheduled_for)
        invalid_occurrence
      >>= result_after r
