-- ===== src/Power/Shutdown/Prepare/Run.antt =====
-- How a run of the steps of a plan ends.
use atlas_manager.Base.{
  ◌≡◌, refl, sym, ap, ◌∙◌, ◌⊎◌, inl, inr, Bool, true, false, Str, Option, some, none, Result, ok,
  err, if◌then◌else◌, Bool-cases, suc,
}
use mathlib.Core.Path.{subst}
use atlas_manager.Base.Int.{ℤ}
use atlas_manager.Base.Platform.{Dates}
use atlas_manager.Power.Tick.{Occurrence}
use atlas_manager.Power.Shutdown.Action.{lift, after, ◌>>=◌, >>=-ok}
use atlas_manager.Power.Shutdown.Blocker.{ReadinessDecision}
use atlas_manager.Power.Shutdown.Readiness.{Reader}
use atlas_manager.Power.Shutdown.Records.{
  PreparationStep, EventKind, EventDetail, PreparationEvent, PreparationFailure, StepOutcome,
  RecordError, StepDetail, StepResult, create_step_result, create_event, no_detail, failed_at,
}
use atlas_manager.Power.Shutdown.Plan.{PreparationPlan, is_approved}
use atlas_manager.Power.Shutdown.Report.{
  PreparationReport, PreparationOutcome, prepared, incomplete, map_error,
}
use atlas_manager.Power.Shutdown.Report.Laws.{create_preparation_report-outcome}
use atlas_manager.Power.Shutdown.Attempt.{
  PreparationPorts, PreparationError, report_failed, Progress, no_progress, final_kind,
  final_detail, step_failed, with_step,
}
use atlas_manager.Power.Shutdown.Prepare.{
  evaluate_with, event, step_of, run_steps, report_of, finish_run, reevaluate, complete_run,
  start_run, run_plan, recorded, record_created,
}

pub map_error-ok :
    {E F A : Type 0} (f : E → F) (r : Result E A) {a : A} → map_error f r ≡ ok a → r ≡ ok a
map_error-ok f (ok a) h = cc
map_error-ok f (err e) h = cc

-- The second world is reached from the first by recording events.
pub data Recorded {W : Type 0} (ports : PreparationPorts W) (w : W) : W → Type 0 where
  here : Recorded ports w w
  next :
      {v : W} (e : PreparationEvent)
      → Recorded ports w v
      → Recorded ports w (ports.record_event e v).0

pub Recorded-trans :
    {W : Type 0} {ports : PreparationPorts W} {u v w : W}
    → Recorded ports u v
    → Recorded ports v w
    → Recorded ports u w
Recorded-trans h here = h
Recorded-trans h (next e k) = next e (Recorded-trans h k)

module _ (d : Dates) (compare : Str → Str → ℤ) {W : Type 0} (ports : PreparationPorts W)
    (confirmation : Option (Reader W Bool)) (o : Occurrence) (at : Str) where
  -- The readiness was approved, and nothing was done since but recording events.
  abbrev pub IsApproved : W → Type 0
  IsApproved w' =
      (u v : W) × (f : ReadinessDecision) × (evaluate_with d compare ports confirmation o at u
        ≡ (v, ok f))
      × (is_approved f ≡ true)
      × Recorded ports v w'

  abbrev pub RunEnds : W → PreparationReport → Type 0
  RunEnds w' r = (r.outcome ≡ incomplete) ⊎ ((r.outcome ≡ prepared) × IsApproved w')

  module _ (initial : ReadinessDecision) where
    event-Recorded :
        (k : EventKind) (x : EventDetail) (p : Progress) {w w' : W} {q : Progress × Bool}
        → event d compare ports confirmation o at initial k x p w ≡ (w', ok q)
        → Recorded ports w w'
    unfolding event
    event-Recorded k x p {w} h = go (create_event d (suc p.sequence) k o at x) h
      where
        last :
            (e : PreparationEvent) (v : W × Result (Unit {0}) (Unit {0})) {w' : W}
            {q : Progress × Bool}
            → recorded d compare ports confirmation o at initial {E = PreparationError} p e v
              ≡ (w', ok q)
            → v.0 ≡ w'
        last e (v, ok u) h = cc
        last e (v, err u) h = cc

        go :
            (c : Result RecordError PreparationEvent) {w' : W} {q : Progress × Bool}
            → record_created d compare ports confirmation o at initial {E = PreparationError} p c w
              ≡ (w', ok q)
            → Recorded ports w w'
        go (err e) h = subst (Recorded ports w) (ap (λ x. x.0) h) here
        go (ok e) h = subst (Recorded ports w) (last e (ports.record_event e w) h) (next e here)

    pub report_of-ok :
        (plan : Option PreparationPlan) (p : Progress) (final : Option ReadinessDecision)
        (outcome : PreparationOutcome) {w w' : W} {r : PreparationReport}
        → report_of d compare ports confirmation o at initial plan p final outcome w ≡ (w', ok r)
        → (w' ≡ w) × (r.outcome ≡ outcome)
    report_of-ok plan p final outcome h = (
      sym (ap (λ x. x.0) h),
      create_preparation_report-outcome d compare _
          (map_error-ok report_failed _ (ap (λ x. x.1) h)),
    )

    step_of-world :
        (k : PreparationStep) (x : StepOutcome) (detail : Option StepDetail) (p : Progress)
        {w w' : W} {q : Progress}
        → step_of d compare ports confirmation o at initial k x detail p w ≡ (w', ok q)
        → w' ≡ w
    step_of-world k x detail p {w} h =
        go (map_error step_failed (create_step_result d k at at x detail)) h
      where
        go :
            (c : Result PreparationError StepResult) {w' : W} {q : Progress}
            → after (λ s. lift (ok (with_step s p))) (w, c) ≡ (w', ok q)
            → w' ≡ w
        go (ok s) h = sym (ap (λ x. x.0) h)
        go (err e) h = cc

    finish_run-ends :
        (plan : PreparationPlan) (f : ReadinessDecision) (q : Progress × Bool) (u v w : W) {w' : W}
        {r : PreparationReport}
        → evaluate_with d compare ports confirmation o at u ≡ (v, ok f)
        → Recorded ports v w
        → finish_run d compare ports confirmation o at initial plan f q w ≡ (w', ok r)
        → RunEnds w' r
    finish_run-ends plan f (p, false) u v w e k h =
        let (x, (p', done), e', k') =
          >>=-ok
            (event d compare ports confirmation o at initial EventKind.preparation_failed
              (failed_at PreparationStep.record_final_readiness
                PreparationFailure.event_recording_failed)
              p)
            (λ a.
              report_of d compare ports confirmation o at initial (some plan) a.0 (some f)
                incomplete)
            h in
        inl (report_of-ok (some plan) p' (some f) incomplete k').1
    finish_run-ends plan f (p, true) u v w e k h =
        let (x, p', e', k') =
          >>=-ok
            (step_of d compare ports confirmation o at initial
              PreparationStep.record_final_readiness StepOutcome.completed none p)
            (λ a.
              report_of d compare ports confirmation o at initial (some plan) a (some f)
                (if is_approved f then prepared else incomplete))
            h in
        let (same, outcome) =
          report_of-ok (some plan) p' (some f) (if is_approved f then prepared else incomplete)
            k' in
        elim (Bool-cases (is_approved f)) [
          | inl a ↦ inr (
            outcome ∙ rw a refl,
            (
              u,
              v,
              f,
              e,
              a,
              subst (Recorded ports v)
                  (sym (
                      step_of-world PreparationStep.record_final_readiness StepOutcome.completed
                        none p e')
                    ∙ sym same)
                  k,
            ),
          )
          | inr a ↦ inl (outcome ∙ rw a refl)
        ]

    reevaluate-ends :
        (plan : PreparationPlan) (q : Progress × Bool) (w : W) {w' : W} {r : PreparationReport}
        → reevaluate d compare ports confirmation o at initial plan q w ≡ (w', ok r)
        → RunEnds w' r
    reevaluate-ends plan (p, false) w h = inl (report_of-ok (some plan) p none incomplete h).1
    reevaluate-ends plan (p, true) w h =
        let (x, f, e, k) =
          >>=-ok (evaluate_with d compare ports confirmation o at)
            (λ f.
              step_of d compare ports confirmation o at initial PreparationStep.reevaluate_readiness
                StepOutcome.completed none p
              >>= λ a.
                  event d compare ports confirmation o at initial (final_kind f) (final_detail f) a
                  >>= finish_run d compare ports confirmation o at initial plan f)
            h in
        let (y, p', e', k') =
          >>=-ok
            (step_of d compare ports confirmation o at initial PreparationStep.reevaluate_readiness
              StepOutcome.completed none p)
            (λ a.
              event d compare ports confirmation o at initial (final_kind f) (final_detail f) a
              >>= finish_run d compare ports confirmation o at initial plan f)
            k in
        let (z, q, e'', k'') =
          >>=-ok
            (event d compare ports confirmation o at initial (final_kind f) (final_detail f) p')
            (finish_run d compare ports confirmation o at initial plan f) k' in
        finish_run-ends plan f q w x z e
          (subst (λ t. Recorded ports t z)
            (step_of-world PreparationStep.reevaluate_readiness StepOutcome.completed none p e')
            (event-Recorded (final_kind f) (final_detail f) p' e''))
          k''

    complete_run-ends :
        (plan : PreparationPlan) (q : Progress × Bool) (w : W) {w' : W} {r : PreparationReport}
        → complete_run d compare ports confirmation o at initial plan q w ≡ (w', ok r)
        → RunEnds w' r
    complete_run-ends plan (p, false) w h = inl (report_of-ok (some plan) p none incomplete h).1
    complete_run-ends plan (p, true) w h =
        let (x, p', e, k) =
          >>=-ok
            (step_of d compare ports confirmation o at initial
              PreparationStep.record_preparation_completed StepOutcome.completed none p)
            (λ a.
              event d compare ports confirmation o at initial EventKind.preparation_completed
                no_detail a
              >>= reevaluate d compare ports confirmation o at initial plan)
            h in
        let (y, q, e', k') =
          >>=-ok
            (event d compare ports confirmation o at initial EventKind.preparation_completed
              no_detail p')
            (reevaluate d compare ports confirmation o at initial plan) k in
        reevaluate-ends plan q y k'

    start_run-ends :
        (plan : PreparationPlan) (q : Progress × Bool) (w : W) {w' : W} {r : PreparationReport}
        → start_run d compare ports confirmation o at initial plan q w ≡ (w', ok r)
        → RunEnds w' r
    start_run-ends plan (p, false) w h = inl (report_of-ok (some plan) p none incomplete h).1
    start_run-ends plan (p, true) w h =
        let (x, q, e, k) =
          >>=-ok (run_steps d compare ports confirmation o at initial plan.steps p)
            (complete_run d compare ports confirmation o at initial plan) h in
        complete_run-ends plan q x k

    pub run_plan-ends :
        (plan : PreparationPlan) (w : W) {w' : W} {r : PreparationReport}
        → run_plan d compare ports confirmation o at initial plan w ≡ (w', ok r)
        → RunEnds w' r
    unfolding run_plan
    run_plan-ends plan w h =
        let (x, q, e, k) =
          >>=-ok
            (event d compare ports confirmation o at initial EventKind.preparation_started no_detail
              no_progress)
            (start_run d compare ports confirmation o at initial plan) h in
        start_run-ends plan q x k
