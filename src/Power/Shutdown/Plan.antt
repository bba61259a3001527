-- ===== src/Power/Shutdown/Plan.antt =====
-- The plan of a preparation: domain/machine-shutdown-preparation-plan.ts, and the planning of
-- application/prepare-machine-shutdown-occurrence.ts.
use atlas_manager.Base.{
  ℕ, Bool, true, false, not, ◌||◌, ◌&&◌, List, [], ◌∷◌, ◌++◌, Str, str_eq, Option, some, none,
  Result, ok, err, ◌>>=◌, ◌>>◌, throw_if, any, ◌==◌, if◌then◌else◌,
}
use atlas_manager.Base.Int.{ℤ}
use atlas_manager.Base.Values.{Value}
use atlas_manager.Base.Platform.{Dates, is_canonical_timestamp}
use atlas_manager.Power.Tick.{Occurrence}
use atlas_manager.Power.Interval.{create_occurrence}
use atlas_manager.Power.Shutdown.Blocker.{
  BlockerCode, Blocker, ReadinessDecision, DecisionOutcome, approved, rejected, code_text,
  area_order, create_decision, or_throw, DecisionError,
}
use atlas_manager.Power.Shutdown.Readiness.{is_not_empty}
use atlas_manager.Power.Shutdown.Records.{
  PreparationStep, record_preparation_started, stop_registered_services, drain_active_tasks,
  complete_backup, synchronize_filesystem, record_preparation_completed, reevaluate_readiness,
  record_final_readiness,
}

pub record PreparationPlan : Type 0 where
  pub occurrence : Occurrence
  pub planned_at : Str
  pub initial_decision : ReadinessDecision
  pub steps : List PreparationStep

pub data PlanFault : Type 0 where
  invalid_plan invalid_step : PlanFault

abbrev pub same_code : BlockerCode → BlockerCode → Bool
same_code a b = str_eq (code_text a) (code_text b)

-- `codes.has(code)`.
abbrev pub has_blocker : BlockerCode → List Blocker → Bool
has_blocker c bs = any (λ b. same_code b.code c) bs

abbrev pub step_if : Bool → PreparationStep → List PreparationStep
step_if true s = s ∷ []
step_if false s = []

-- The steps for the blockers of a decision that is rejected; both files list them.
abbrev pub steps_for : List Blocker → List PreparationStep
steps_for bs =
    record_preparation_started
    ∷ (step_if (has_blocker BlockerCode.service_running bs) stop_registered_services
        ++ (step_if (has_blocker BlockerCode.active_tasks_present bs) drain_active_tasks
            ++ (step_if (has_blocker BlockerCode.backup_in_progress bs) complete_backup
                ++ (step_if (has_blocker BlockerCode.filesystem_sync_required bs)
                      synchronize_filesystem
                    ++ (record_preparation_completed ∷ reevaluate_readiness ∷ record_final_readiness
                        ∷ [])))))

-- `isPreparableBlocker`.
abbrev pub is_preparable : Blocker → Bool
is_preparable b = elim b.code [
  | BlockerCode.service_running ↦ elim b.service_id [ some s ↦ true | none ↦ false ]
  | BlockerCode.active_tasks_present ↦ true
  | BlockerCode.backup_in_progress ↦ true
  | BlockerCode.filesystem_sync_required ↦ true
  | _ ↦ false
]

abbrev pub expected_of : DecisionOutcome → List Blocker → Option (List PreparationStep)
expected_of approved bs = some []
expected_of rejected bs = if any (λ b. not (is_preparable b)) bs then none else some (steps_for bs)

unfoldable pub expected_steps : ReadinessDecision → Option (List PreparationStep)
expected_steps decision = expected_of decision.outcome decision.blockers

abbrev pub step_number : PreparationStep → ℕ
step_number record_preparation_started = 0
step_number stop_registered_services = 1
step_number drain_active_tasks = 2
step_number complete_backup = 3
step_number synchronize_filesystem = 4
step_number record_preparation_completed = 5
step_number reevaluate_readiness = 6
step_number record_final_readiness = 7

abbrev pub same_step : PreparationStep → PreparationStep → Bool
same_step a b = step_number a == step_number b

unfoldable pub are_steps_different : List PreparationStep → Bool
are_steps_different [] = true
are_steps_different (s ∷ ss) = not (any (same_step s) ss) && are_steps_different ss

-- Every step is the expected one, and there are as many.
unfoldable pub are_steps_equal : List PreparationStep → List PreparationStep → Bool
are_steps_equal [] [] = true
are_steps_equal (s ∷ ss) (t ∷ ts) = same_step s t && are_steps_equal ss ts
are_steps_equal ss ts = false

abbrev pub are_expected : List PreparationStep → Option (List PreparationStep) → Bool
are_expected steps none = false
are_expected steps (some expected) = are_steps_different steps && are_steps_equal steps expected

abbrev pub same_occurrence : Occurrence → Occurrence → Bool
same_occurrence a b =
    str_eq a.scheduled_for b.scheduled_for && str_eq a.wake_scheduled_for b.wake_scheduled_for

abbrev pub same_option : {A : Type 0} → (A → A → Bool) → Option A → Option A → Bool
same_option same none none = true
same_option same (some a) (some b) = same a b
same_option same a b = false

abbrev pub same_blocker : Blocker → Blocker → Bool
same_blocker a b =
    area_order a.area == area_order b.area
    && (same_code a.code b.code
        && (same_option str_eq a.service_id b.service_id
            && (same_option str_eq a.first_required_at b.first_required_at
                && same_option ◌==◌ a.active_task_count b.active_task_count)))

unfoldable pub same_blockers : List Blocker → List Blocker → Bool
same_blockers [] [] = true
same_blockers (a ∷ ls) (b ∷ rs) = same_blocker a b && same_blockers ls rs
same_blockers _ _ = false

abbrev pub is_approved : ReadinessDecision → Bool
is_approved decision = elim decision.outcome [ approved ↦ true | rejected ↦ false ]

-- The texts that `JSON.stringify` gives for the two decisions are the same.
unfoldable pub same_decision : ReadinessDecision → ReadinessDecision → Bool
same_decision a b =
    same_occurrence a.occurrence b.occurrence
    && (str_eq a.evaluated_at b.evaluated_at
        && ((if is_approved a then is_approved b else not (is_approved b))
            && same_blockers a.blockers b.blockers))

pub data Planning : Type 0 where
  planned : PreparationPlan → Planning
  blocked : ReadinessDecision → Planning

-- `!PREPARABLE.has(code) || (code === "service_running" && !serviceId)`.
abbrev pub is_unpreparable : Blocker → Bool
is_unpreparable b = elim b.code [
  | BlockerCode.service_running ↦ elim b.service_id [ some s ↦ not (is_not_empty s) | none ↦ true ]
  | BlockerCode.active_tasks_present ↦ false
  | BlockerCode.backup_in_progress ↦ false
  | BlockerCode.filesystem_sync_required ↦ false
  | _ ↦ true
]

module _ (d : Dates) (compare : Str → Str → ℤ) where
  -- A decision that is checked again.
  abbrev pub recreate_decision : ReadinessDecision → Result DecisionError ReadinessDecision
  recreate_decision r = create_decision d compare r.occurrence r.evaluated_at r.outcome r.blockers

  abbrev pub is_other_decision : Str → List PreparationStep → Occurrence → ReadinessDecision → Bool
  is_other_decision planned_at steps valid decision =
      not (same_occurrence decision.occurrence valid)
      || (not (str_eq decision.evaluated_at planned_at)
          || not (are_expected steps (expected_steps decision)))

  abbrev pub plan_of :
      Str → List PreparationStep → Occurrence → ReadinessDecision → Result PlanFault PreparationPlan
  plan_of planned_at steps valid decision = do
    throw_if (is_other_decision planned_at steps valid decision) invalid_step
    ok (record {
      occurrence = valid;
      planned_at = planned_at;
      initial_decision = decision;
      steps = steps;
    })

  unfoldable pub create_plan :
      Occurrence → Str → ReadinessDecision → List PreparationStep → Result PlanFault PreparationPlan
  unfolding are_steps_different are_steps_equal expected_steps
  create_plan o planned_at input steps = do
    throw_if (not (is_canonical_timestamp d (Value.string planned_at))) invalid_plan
    valid ← or_throw (create_occurrence d o.scheduled_for o.wake_scheduled_for) invalid_plan
    decision ← or_throw (recreate_decision input) invalid_plan
    plan_of planned_at steps valid decision

  abbrev pub as_planned : Result PlanFault PreparationPlan → Result PlanFault Planning
  as_planned (ok p) = ok (planned p)
  as_planned (err e) = err e

  abbrev pub plan_outcome :
      Occurrence → Str → ReadinessDecision → DecisionOutcome → Result PlanFault Planning
  plan_outcome o at decision approved = as_planned (create_plan o at decision [])
  plan_outcome o at decision rejected =
      if any is_unpreparable decision.blockers
      then ok (blocked decision)
      else as_planned (create_plan o at decision (steps_for decision.blockers))

  unfoldable pub create_preparation_plan :
      Occurrence → Str → ReadinessDecision → Result PlanFault Planning
  create_preparation_plan o at decision = plan_outcome o at decision decision.outcome
