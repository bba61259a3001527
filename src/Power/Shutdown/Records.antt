-- ===== src/Power/Shutdown/Records.antt =====
-- The records of a preparation: domain/machine-shutdown-preparation-event.ts,
-- machine-shutdown-preparation-step-result.ts and machine-shutdown-service-preparation-result.ts. The checks are
-- those on records that have the fields of their types; a count is a natural number.
use atlas_manager.Base.{
  ℕ, Bool, true, false, not, ◌||◌, ◌&&◌, List, [], ◌∷◌, Str, lit, Option, some, none, Result, ok,
  err, ◌>>=◌, ◌>>◌, throw_if, map_result, any, length, ltb, includes, map, if◌then◌else◌,
}
use atlas_manager.Base.Values.{Value}
use atlas_manager.Base.Platform.{Dates, is_canonical_timestamp}
use atlas_manager.Base.Pattern.{is_slug}
use atlas_manager.Power.Tick.{Occurrence}
use atlas_manager.Power.Interval.{create_occurrence}
use atlas_manager.Power.Shutdown.Blocker.{BlockerCode, or_throw, is_present_and}

pub data PreparationStep : Type 0 where
  record_preparation_started stop_registered_services drain_active_tasks : PreparationStep
  complete_backup synchronize_filesystem record_preparation_completed : PreparationStep
  reevaluate_readiness record_final_readiness : PreparationStep

pub data PreparationFailure : Type 0 where
  active_tasks_present backup_completion_failed backup_completion_unknown : PreparationFailure
  event_recording_failed filesystem_synchronization_failed : PreparationFailure
  filesystem_synchronization_unknown preparation_dependency_failed : PreparationFailure
  service_status_failed service_stop_failed service_stop_not_supported : PreparationFailure
  service_plan_invalid service_preparation_failed : PreparationFailure

-- The outcomes of the controllers of tasks, backups and the file system.
pub data Settled : Type 0 where
  drained already_drained completed not_running synchronized already_synchronized : Settled

pub data EventKind : Type 0 where
  preparation_started services_prepared active_tasks_prepared backup_prepared : EventKind
  filesystem_prepared preparation_completed preparation_failed : EventKind
  final_readiness_approved final_readiness_rejected : EventKind

-- The fields that an event has besides the first four.
pub data EventDetail : Type 0 where
  no_detail : EventDetail
  stopped_counts : ℕ → ℕ → EventDetail
  settled_as : Settled → EventDetail
  failed_at : PreparationStep → PreparationFailure → EventDetail
  blocker_codes : List BlockerCode → EventDetail

pub record PreparationEvent : Type 0 where
  pub sequence : ℕ
  pub kind : EventKind
  pub occurrence : Occurrence
  pub occurred_at : Str
  pub detail : EventDetail

pub data RecordError : Type 0 where
  invalid_event invalid_step_result invalid_step_detail invalid_service_detail : RecordError
  invalid_task_detail invalid_state_detail invalid_failure_code : RecordError
  invalid_service_result invalid_service_step invalid_service_steps : RecordError
  invalid_service_success invalid_failure_order : RecordError

-- The fields are those of the kind, and the outcome is one of the kind.
abbrev pub fits_kind : EventKind → EventDetail → Bool
fits_kind preparation_started no_detail = true
fits_kind preparation_completed no_detail = true
fits_kind final_readiness_approved no_detail = true
fits_kind services_prepared (stopped_counts m n) = true
fits_kind active_tasks_prepared (settled_as drained) = true
fits_kind active_tasks_prepared (settled_as already_drained) = true
fits_kind backup_prepared (settled_as completed) = true
fits_kind backup_prepared (settled_as not_running) = true
fits_kind filesystem_prepared (settled_as synchronized) = true
fits_kind filesystem_prepared (settled_as already_synchronized) = true
fits_kind preparation_failed (failed_at s f) = true
fits_kind final_readiness_rejected (blocker_codes (c ∷ cs)) = true
fits_kind _ _ = false

unfoldable pub create_event :
    Dates → ℕ → EventKind → Occurrence → Str → EventDetail → Result RecordError PreparationEvent
create_event d sequence kind o at detail = do
  throw_if (ltb sequence 1 || not (is_canonical_timestamp d (Value.string at))) invalid_event
  valid ← or_throw (create_occurrence d o.scheduled_for o.wake_scheduled_for) invalid_event
  throw_if (not (fits_kind kind detail)) invalid_event
  ok (record {
    sequence = sequence;
    kind = kind;
    occurrence = valid;
    occurred_at = at;
    detail = detail;
  })

pub data ServiceOutcome : Type 0 where
  stopped already_stopped : ServiceOutcome
  failed : Option PreparationFailure → ServiceOutcome

pub record ServiceStep : Type 0 where
  pub service_id : Str
  pub outcome : ServiceOutcome

-- `isServiceFailureCode`.
abbrev pub is_service_failure : PreparationFailure → Bool
is_service_failure service_status_failed = true
is_service_failure service_stop_not_supported = true
is_service_failure service_stop_failed = true
is_service_failure service_plan_invalid = true
is_service_failure f = false

abbrev pub has_failed : ServiceStep → Bool
has_failed s = elim s.outcome [ failed f ↦ true | _ ↦ false ]

-- A failure has one of the services' codes.
abbrev pub has_code : ServiceOutcome → Bool
has_code stopped = true
has_code already_stopped = true
has_code (failed none) = false
has_code (failed (some f)) = is_service_failure f

unfoldable pub create_service_step : ServiceStep → Result RecordError ServiceStep
create_service_step s = do
  throw_if (not (is_slug s.service_id)) invalid_service_step
  throw_if (not (has_code s.outcome)) invalid_service_step
  ok s

unfoldable pub are_all_different : List Str → Bool
are_all_different [] = true
are_all_different (x ∷ xs) = not (includes xs x) && are_all_different xs

-- `steps[steps.length - 1]` failed.
abbrev pub has_last_failed : List ServiceStep → Bool
has_last_failed [] = false
has_last_failed (s ∷ []) = has_failed s
has_last_failed (s ∷ t ∷ rest) = has_last_failed (t ∷ rest)

abbrev pub agrees : Bool → Bool → Bool
agrees true b = b
agrees false b = not b

-- The steps of a result that is checked.
unfoldable pub create_service_result :
    Dates → Str → List ServiceStep → Bool → Result RecordError (List ServiceStep)
create_service_result d requested_at input successful = do
  throw_if (not (is_canonical_timestamp d (Value.string requested_at))) invalid_service_result
  steps ← map_result create_service_step input
  throw_if
      (ltb (length steps) 1
        || (ltb 64 (length steps) || not (are_all_different (map (λ s. s.service_id) steps))))
      invalid_service_steps
  throw_if (agrees successful (any has_failed steps)) invalid_service_success
  throw_if (any has_failed steps && not (has_last_failed steps)) invalid_failure_order
  ok steps

pub data StepOutcome : Type 0 where
  completed skipped blocked failed : StepOutcome

pub data StepDetail : Type 0 where
  service_detail : List ServiceStep → Option PreparationFailure → StepDetail
  settled_detail : Settled → StepDetail
  failure_detail : PreparationFailure → Option ℕ → StepDetail

pub record StepResult : Type 0 where
  pub kind : PreparationStep
  pub started_at : Str
  pub completed_at : Str
  pub outcome : StepOutcome
  pub detail : Option StepDetail

-- The time that the check of the services' detail gives their result.
abbrev pub detail_time : Str
detail_time = lit "2026-01-01T00:00:00.000Z"

-- The detail of the services says why they failed if and only if they failed.
abbrev pub is_service_code : StepOutcome → Option PreparationFailure → Bool
is_service_code StepOutcome.failed (some f) = is_service_failure f
is_service_code StepOutcome.failed none = false
is_service_code o none = true
is_service_code o (some f) = false

abbrev pub is_failed_step : StepOutcome → Bool
is_failed_step StepOutcome.failed = true
is_failed_step o = false

-- `isFailureCodeAllowed`.
abbrev pub is_failure_allowed : PreparationStep → StepOutcome → PreparationFailure → Bool
is_failure_allowed drain_active_tasks StepOutcome.blocked active_tasks_present = true
is_failure_allowed complete_backup StepOutcome.blocked backup_completion_failed = true
is_failure_allowed complete_backup StepOutcome.blocked backup_completion_unknown = true
is_failure_allowed synchronize_filesystem StepOutcome.blocked filesystem_synchronization_failed =
    true
is_failure_allowed synchronize_filesystem StepOutcome.blocked filesystem_synchronization_unknown =
    true
is_failure_allowed drain_active_tasks StepOutcome.failed preparation_dependency_failed = true
is_failure_allowed complete_backup StepOutcome.failed preparation_dependency_failed = true
is_failure_allowed synchronize_filesystem StepOutcome.failed preparation_dependency_failed = true
is_failure_allowed k o f = false

abbrev pub is_drain : PreparationStep → Bool
is_drain drain_active_tasks = true
is_drain k = false

abbrev pub is_blocked_step : StepOutcome → Bool
is_blocked_step StepOutcome.blocked = true
is_blocked_step o = false

-- A step was completed or skipped with an outcome of its kind.
abbrev pub is_settled : PreparationStep → Settled → Bool
is_settled drain_active_tasks drained = true
is_settled drain_active_tasks already_drained = true
is_settled complete_backup Settled.completed = true
is_settled complete_backup not_running = true
is_settled synchronize_filesystem synchronized = true
is_settled synchronize_filesystem already_synchronized = true
is_settled k s = false

-- A count of tasks is there for a drain that is blocked, and for no step but a drain.
abbrev pub is_count_missing : PreparationStep → StepOutcome → Option ℕ → Bool
is_count_missing k o none = is_drain k && is_blocked_step o
is_count_missing k o (some n) = not (is_drain k)

abbrev pub is_out_of_bounds : Option ℕ → Bool
is_out_of_bounds n = is_present_and (λ m. ltb m 1 || ltb 10000 m) n

-- A step that is completed or skipped has no failure, one that is blocked or failed has one.
abbrev pub is_done : StepOutcome → Bool
is_done StepOutcome.completed = true
is_done skipped = true
is_done o = false

-- The error of a detail that is not one of the kind and the outcome.
abbrev pub wrong_detail : PreparationStep → StepOutcome → RecordError
wrong_detail drain_active_tasks o = if is_done o then invalid_task_detail else invalid_step_detail
wrong_detail complete_backup o = if is_done o then invalid_state_detail else invalid_step_detail
wrong_detail synchronize_filesystem o =
    if is_done o then invalid_state_detail else invalid_step_detail
wrong_detail k o = invalid_step_detail

module _ (d : Dates) where
  abbrev pub validate_services :
      StepOutcome → List ServiceStep → Option PreparationFailure → Result RecordError StepDetail
  validate_services o input code = do
    steps ← create_service_result d detail_time input (not (is_failed_step o))
    throw_if (not (is_service_code o code)) invalid_service_detail
    ok (service_detail steps code)

  abbrev pub validate_failure :
      PreparationStep → StepOutcome → PreparationFailure → Option ℕ → Result RecordError StepDetail
  validate_failure k o f count = do
    throw_if (is_done o) (wrong_detail k o)
    throw_if (is_out_of_bounds count) invalid_task_detail
    throw_if (not (is_failure_allowed k o f)) invalid_failure_code
    throw_if (is_count_missing k o count) invalid_task_detail
    ok (failure_detail f count)

  abbrev pub validate_settled :
      PreparationStep → StepOutcome → Settled → Result RecordError StepDetail
  validate_settled k o s = do
    throw_if (not (is_done o) || not (is_settled k s)) (wrong_detail k o)
    ok (settled_detail s)

  unfoldable pub validate_detail :
      PreparationStep → StepOutcome → StepDetail → Result RecordError StepDetail
  validate_detail stop_registered_services o (service_detail steps code) =
      validate_services o steps code
  validate_detail stop_registered_services o detail = err invalid_service_detail
  validate_detail k o (service_detail steps code) = err (wrong_detail k o)
  validate_detail k o (settled_detail s) = validate_settled k o s
  validate_detail k o (failure_detail f count) = validate_failure k o f count

  abbrev pub validate_optional :
      PreparationStep → StepOutcome → Option StepDetail → Result RecordError (Option StepDetail)
  validate_optional k o none = ok none
  validate_optional k o (some detail) = validate_detail k o detail >>= λ v. ok (some v)

  -- The steps that record something have no detail.
  abbrev pub is_recording : PreparationStep → Bool
  is_recording record_preparation_started = true
  is_recording record_preparation_completed = true
  is_recording reevaluate_readiness = true
  is_recording record_final_readiness = true
  is_recording k = false

  unfoldable pub create_step_result :
      PreparationStep → Str → Str → StepOutcome → Option StepDetail → Result RecordError StepResult
  unfolding validate_detail
  create_step_result k started_at completed_at o input = do
    throw_if
        (not (is_canonical_timestamp d (Value.string started_at))
          || not (is_canonical_timestamp d (Value.string completed_at)))
        invalid_step_result
    detail ← validate_optional k o input
    throw_if (is_recording k && is_present_and (λ v. true) detail) invalid_step_detail
    ok (record {
      kind = k;
      started_at = started_at;
      completed_at = completed_at;
      outcome = o;
      detail = detail;
    })
