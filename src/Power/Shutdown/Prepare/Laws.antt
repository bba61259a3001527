-- ===== src/Power/Shutdown/Prepare/Laws.antt =====
-- What a preparation that reports `prepared` or `not_required` has done.
use atlas_manager.Base.{
  ◌≡◌, refl, ◌⊎◌, inl, inr, Bool, true, false, Str, Option, some, none, Result, ok, err,
  if◌then◌else◌,
}
use atlas_manager.Power.Shutdown.Prepare.Plans.{planned-approved}
use atlas_manager.Power.Shutdown.Prepare.Run.{IsApproved, run_plan-ends, report_of-ok}
use atlas_manager.Power.Shutdown.Result.Laws.{create_occurrence-eq}
use mathlib.Core.Path.{subst}
use atlas_manager.Base.Int.{ℤ}
use atlas_manager.Base.Platform.{Dates}
use atlas_manager.Power.Tick.{Occurrence}
use atlas_manager.Power.Interval.{create_occurrence, IntervalError}
use atlas_manager.Power.Shutdown.Action.{lift, after, ◌>>=◌}
use atlas_manager.Power.Shutdown.Blocker.{ReadinessDecision}
use atlas_manager.Power.Shutdown.Readiness.{Reader, is_not_empty, occurrence_of}
use atlas_manager.Power.Shutdown.Plan.{
  PlanFault, Planning, planned, create_preparation_plan, is_approved,
}
use atlas_manager.Power.Shutdown.Report.{
  PreparationReport, PreparationOutcome, prepared, incomplete, not_required, map_error,
}
use atlas_manager.Power.Shutdown.Attempt.{
  PreparationPorts, planning_failed, evaluation_failed, no_progress,
}
use atlas_manager.Power.Shutdown.Prepare.{report_of, run_plan, prepare_planned, prepare_at}

module _ (d : Dates) (compare : Str → Str → ℤ) {W : Type 0} (ports : PreparationPorts W)
    (confirmation : Option (Reader W Bool)) (at : Str) (decision : ReadinessDecision) where
  -- Every report is blocked, incomplete, of an approval that needs nothing, or of a run after which the readiness
  -- was approved.
  abbrev pub Ends : Occurrence → W → W → PreparationReport → Type 0
  Ends o w w' r =
      (r.outcome ≡ PreparationOutcome.blocked)
      ⊎ ((r.outcome ≡ incomplete)
          ⊎ (((r.outcome ≡ not_required) × (is_approved decision ≡ true) × (w' ≡ w))
              ⊎ ((r.outcome ≡ prepared) × IsApproved d compare ports confirmation o at w')))

  run-Ends :
      (o : Occurrence) (w w' : W) (r : PreparationReport)
      → (r.outcome ≡ incomplete)
        ⊎ ((r.outcome ≡ prepared) × IsApproved d compare ports confirmation o at w')
      → Ends o w w' r
  run-Ends o w w' r (inl h) = inr (inl h)
  run-Ends o w w' r (inr h) = inr (inr (inr h))

  prepare_planned-Ends :
      (o : Occurrence) (p : Planning) (w : W) {w' : W} {r : PreparationReport}
      → create_preparation_plan d compare o at decision ≡ ok p
      → prepare_planned d compare ports confirmation o at decision p w ≡ (w', ok r)
      → Ends o w w' r
  prepare_planned-Ends o (Planning.blocked x) w e h =
      inl
        (report_of-ok d compare ports confirmation o at decision none no_progress none
          PreparationOutcome.blocked h).1
  prepare_planned-Ends o (planned plan) w {w'} {r} e h = go (is_not_empty plan.steps) refl h
    where
      go :
          (b : Bool)
          → is_not_empty plan.steps ≡ b
          → (if b
                then run_plan d compare ports confirmation o at decision plan
                else report_of d compare ports confirmation o at decision
                    (some plan)
                    no_progress
                    none
                    not_required)
              w
            ≡ (w', ok r)
          → Ends o w w' r
      go true k h =
          run-Ends o w w' r (run_plan-ends d compare ports confirmation o at decision plan w h)
      go false k h =
          let (same, outcome) =
            report_of-ok d compare ports confirmation o at decision (some plan) no_progress none
              not_required h in
          inr (inr (inl (outcome, planned-approved d compare o at decision e k, same)))

  pub prepare_at-Ends :
      (o : Occurrence) (w : W) {w' : W} {r : PreparationReport}
      → prepare_at d compare ports confirmation o at (some decision) w ≡ (w', ok r)
      → Ends o w w' r
  unfolding prepare_at
  prepare_at-Ends o w {w'} {r} h =
      go (create_occurrence d o.scheduled_for o.wake_scheduled_for) refl h
    where
      planning :
          (v : Occurrence) (q : Result PlanFault Planning)
          → create_preparation_plan d compare v at decision ≡ q
          → after
              (prepare_planned d compare ports confirmation v at decision)
              (w, map_error planning_failed q)
            ≡ (w', ok r)
          → Ends v w w' r
      planning v (ok p) e h = prepare_planned-Ends v p w e h
      planning v (err x) e h = cc

      go :
          (c : Result IntervalError Occurrence)
          → create_occurrence d o.scheduled_for o.wake_scheduled_for ≡ c
          → after
              (λ v.
                lift (map_error planning_failed (create_preparation_plan d compare v at decision))
                >>= prepare_planned d compare ports confirmation v at decision)
              (w, map_error evaluation_failed (occurrence_of c))
            ≡ (w', ok r)
          → Ends o w w' r
      go (ok v) e h =
          subst (λ x. Ends x w w' r) (create_occurrence-eq d o e)
            (planning v (create_preparation_plan d compare v at decision) refl h)
      go (err x) e h = cc
