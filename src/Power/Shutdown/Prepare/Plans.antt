-- ===== src/Power/Shutdown/Prepare/Plans.antt =====
-- A plan without steps is the plan of an approval.
use atlas_manager.Base.{
  ◌≡◌, refl, ap, Bool, true, false, not, Str, List, any, Result, ok, err, throw_if, if◌then◌else◌,
  ◌>>=◌ as Result_bind, arith,
}
use atlas_manager.Base.Int.{ℤ}
use atlas_manager.Base.Platform.{Dates, is_canonical_timestamp}
use atlas_manager.Base.Values.{Value}
use atlas_manager.Power.Tick.{Occurrence}
use atlas_manager.Power.Interval.{create_occurrence}
use atlas_manager.Power.Shutdown.Blocker.{
  ReadinessDecision, DecisionOutcome, approved, rejected, or_throw,
}
use atlas_manager.Power.Shutdown.Readiness.{is_not_empty}
use atlas_manager.Power.Shutdown.Records.{PreparationStep}
use atlas_manager.Power.Shutdown.Plan.{
  PreparationPlan, PlanFault, Planning, planned, create_plan, plan_of, plan_outcome,
  create_preparation_plan, recreate_decision, is_approved, is_unpreparable, steps_for, as_planned,
}

abbrev bind_results :
    {A B C : Type 0}
    → Bool
    → Result PlanFault A
    → Result PlanFault B
    → (A → B → Result PlanFault C)
    → Result PlanFault C
bind_results a b c f =
    Result_bind (throw_if a PlanFault.invalid_plan)
      (λ _. Result_bind b (λ x. Result_bind c (λ y. f x y)))

module _ (d : Dates) (compare : Str → Str → ℤ) (o : Occurrence) (at : Str) where
  plan_of-steps :
      (steps : List PreparationStep) (v : Occurrence) (x : ReadinessDecision) {p : PreparationPlan}
      → plan_of d compare at steps v x ≡ ok p
      → p.steps ≡ steps
  plan_of-steps steps v x h = ground arith

  create_plan-steps :
      (r : ReadinessDecision) (steps : List PreparationStep) {p : PreparationPlan}
      → create_plan d compare o at r steps ≡ ok p
      → p.steps ≡ steps
  unfolding create_plan
  create_plan-steps r steps {p} h =
      go (not (is_canonical_timestamp d (Value.string at)))
        (or_throw (create_occurrence d o.scheduled_for o.wake_scheduled_for) PlanFault.invalid_plan)
        (or_throw (recreate_decision d compare r) PlanFault.invalid_plan) h
    where
      go :
          (a : Bool) (b : Result PlanFault Occurrence) (c : Result PlanFault ReadinessDecision)
          → bind_results a b c (plan_of d compare at steps) ≡ ok p
          → p.steps ≡ steps
      go true b c h = cc
      go false (err b) c h = cc
      go false (ok b) (err c) h = cc
      go false (ok b) (ok c) h = plan_of-steps steps b c h

  -- A decision that was not approved has steps in its plan.
  pub planned-approved :
      (r : ReadinessDecision) {p : PreparationPlan}
      → create_preparation_plan d compare o at r ≡ ok (planned p)
      → is_not_empty p.steps ≡ false
      → is_approved r ≡ true
  unfolding create_preparation_plan
  planned-approved r {p} h k = go r.outcome refl h
    where
      as_planned-ok :
          (q : Result PlanFault PreparationPlan) {p : PreparationPlan}
          → as_planned d compare q ≡ ok (planned p)
          → q ≡ ok p
      as_planned-ok (ok q) h = cc
      as_planned-ok (err e) h = cc

      split :
          (b : Bool) {p : PreparationPlan}
          → (if b
              then ok (Planning.blocked r)
              else as_planned d compare (create_plan d compare o at r (steps_for r.blockers)))
            ≡ ok (planned p)
          → is_not_empty p.steps ≡ true
      split true h = cc
      split false h =
          ap is_not_empty (create_plan-steps r (steps_for r.blockers) (as_planned-ok _ h))

      go :
          (x : DecisionOutcome)
          → r.outcome ≡ x
          → plan_outcome d compare o at r x ≡ ok (planned p)
          → is_approved r ≡ true
      go approved e h = rw e refl
      go rejected e h = cc (split (any is_unpreparable r.blockers) h, k)
