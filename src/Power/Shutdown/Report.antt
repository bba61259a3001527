-- ===== src/Power/Shutdown/Report.antt =====
-- domain/machine-shutdown-preparation-report.ts: what a preparation did, and whether it holds together.
pub mod Laws
use atlas_manager.Base.{
  ℕ, suc, Bool, true, false, not, ◌||◌, ◌&&◌, List, [], ◌∷◌, Str, str_eq, Option, some, none,
  Result, ok, err, ◌>>=◌, ◌>>◌, throw_if, map_result, any, keep, length, ltb, ◌==◌,
}
use atlas_manager.Base.Int.{ℤ}
use atlas_manager.Base.Values.{Value}
use atlas_manager.Base.Platform.{Dates, is_canonical_timestamp}
use atlas_manager.Power.Tick.{Occurrence}
use atlas_manager.Power.Interval.{create_occurrence}
use atlas_manager.Power.Shutdown.Blocker.{ReadinessDecision, DecisionError, or_throw}
use atlas_manager.Power.Shutdown.Readiness.{is_not_empty}
use atlas_manager.Power.Shutdown.Records.{
  PreparationStep, EventKind, PreparationEvent, create_event, StepResult, create_step_result,
  RecordError,
}
use atlas_manager.Power.Shutdown.Plan.{
  PreparationPlan, PlanFault, create_plan, recreate_decision, same_occurrence, same_decision,
  same_step, is_approved,
}

pub data PreparationOutcome : Type 0 where
  not_required blocked prepared incomplete : PreparationOutcome

pub record PreparationReport : Type 0 where
  pub occurrence : Occurrence
  pub processed_at : Str
  pub initial_decision : ReadinessDecision
  pub plan : Option PreparationPlan
  pub steps : List StepResult
  pub events : List PreparationEvent
  pub final_decision : Option ReadinessDecision
  pub outcome : PreparationOutcome

pub data ReportFault : Type 0 where
  invalid_report invalid_events invalid_steps : ReportFault
  plan_fault : PlanFault → ReportFault
  record_fault : RecordError → ReportFault
  decision_fault : DecisionError → ReportFault

abbrev pub map_error : {E F A : Type 0} → (E → F) → Result E A → Result F A
map_error f (ok a) = ok a
map_error f (err e) = err (f e)

-- A field that may be absent is checked if it is there.
abbrev pub if_present : {A E : Type 0} → (A → Result E A) → Option A → Result E (Option A)
if_present check none = ok none
if_present check (some a) = check a >>= λ b. ok (some b)

abbrev pub is_present : {A : Type 0} → Option A → Bool
is_present none = false
is_present (some a) = true

-- `xs.at(-1)?.kind`.
abbrev pub last_of : {A : Type 0} → List A → Option A
last_of [] = none
last_of (x ∷ []) = some x
last_of (x ∷ y ∷ ys) = last_of (y ∷ ys)

abbrev pub is_final_approved : EventKind → Bool
is_final_approved EventKind.final_readiness_approved = true
is_final_approved _ = false

abbrev pub is_final_rejected : EventKind → Bool
is_final_rejected EventKind.final_readiness_rejected = true
is_final_rejected _ = false

abbrev pub is_started : EventKind → Bool
is_started EventKind.preparation_started = true
is_started _ = false

abbrev pub is_first_started : List PreparationEvent → Bool
is_first_started [] = true
is_first_started (e ∷ es) = is_started e.kind

abbrev pub ends_with : (EventKind → Bool) → List PreparationEvent → Bool
ends_with p es = elim (last_of es) [ none ↦ false | some e ↦ p e.kind ]

abbrev pub is_final_step : List StepResult → Bool
is_final_step ss = elim (last_of ss) [
  | none ↦ false
  | some s ↦ same_step s.kind PreparationStep.record_final_readiness
]

-- The events are numbered from `n + 1` on, at the time and for the occurrence of the report.
unfoldable pub are_numbered : ℕ → Occurrence → Str → List PreparationEvent → Bool
are_numbered n o at [] = true
are_numbered n o at (e ∷ es) =
    (e.sequence == suc n && (str_eq e.occurred_at at && same_occurrence e.occurrence o))
    && are_numbered (suc n) o at es

unfoldable pub validate_events :
    List PreparationEvent → Occurrence → Str → Result ReportFault (Unit {0})
unfolding are_numbered
validate_events events o at = do
  throw_if (not (are_numbered 0 o at events)) invalid_events
  throw_if (not (is_first_started events)) invalid_events
  throw_if
      (ltb 1 (length (keep (λ e. is_final_approved e.kind || is_final_rejected e.kind) events)))
      invalid_events

-- The kinds of the steps are the first ones of the expected steps.
unfoldable pub follows : List StepResult → List PreparationStep → Bool
follows [] expected = true
follows (s ∷ ss) [] = false
follows (s ∷ ss) (k ∷ ks) = same_step s.kind k && follows ss ks

unfoldable pub validate_steps :
    List StepResult → Option PreparationPlan → Result ReportFault (Unit {0})
unfolding follows
validate_steps steps none = throw_if (is_not_empty steps) invalid_steps
validate_steps steps (some p) =
    throw_if
      (not (
        follows steps
          (keep (λ s. not (same_step s PreparationStep.record_preparation_started)) p.steps)))
      invalid_steps

abbrev pub has_no_steps : Option PreparationPlan → Bool
has_no_steps none = false
has_no_steps (some p) = not (is_not_empty p.steps)

abbrev pub is_final_present : (Bool → Bool) → Option ReadinessDecision → Bool
is_final_present p none = false
is_final_present p (some f) = p (is_approved f)

-- The report contradicts its outcome.
unfoldable pub is_contradictory :
    PreparationOutcome
    → ReadinessDecision
    → Option PreparationPlan
    → List StepResult
    → List PreparationEvent
    → Option ReadinessDecision
    → Bool
is_contradictory not_required initial plan steps events final =
    not (is_approved initial)
    || (not (has_no_steps plan)
        || (is_not_empty steps || (is_not_empty events || is_present final)))
is_contradictory blocked initial plan steps events final =
    is_approved initial
    || (is_present plan || (is_not_empty steps || (is_not_empty events || is_present final)))
is_contradictory prepared initial plan steps events final =
    is_approved initial
    || (not (is_present plan)
        || (not (is_final_present (λ a. a) final)
            || (not (ends_with is_final_approved events) || not (is_final_step steps))))
is_contradictory incomplete initial plan steps events final =
    is_approved initial
    || (not (is_present plan)
        || ((is_final_present (λ a. a) final && ends_with is_final_approved events)
            || (is_final_present not final
                && (is_not_empty events
                    && (not (ends_with is_final_rejected events)
                        && any (λ e. is_final_rejected e.kind) events)))))

module _ (d : Dates) (compare : Str → Str → ℤ) where
  abbrev pub recreate_plan : PreparationPlan → Result ReportFault PreparationPlan
  recreate_plan p =
      map_error plan_fault
        (create_plan d compare p.occurrence p.planned_at p.initial_decision p.steps)

  abbrev pub recreate_step : StepResult → Result ReportFault StepResult
  recreate_step s =
      map_error record_fault
        (create_step_result d s.kind s.started_at s.completed_at s.outcome s.detail)

  abbrev pub recreate_event : PreparationEvent → Result ReportFault PreparationEvent
  recreate_event e =
      map_error record_fault (create_event d e.sequence e.kind e.occurrence e.occurred_at e.detail)

  abbrev pub recreate_final : ReadinessDecision → Result ReportFault ReadinessDecision
  recreate_final f = map_error decision_fault (recreate_decision d compare f)

  -- The plan and the final decision are about the occurrence, the time and the decision of the report.
  abbrev pub is_other_plan : Occurrence → Str → ReadinessDecision → Option PreparationPlan → Bool
  is_other_plan o at initial none = false
  is_other_plan o at initial (some p) =
      not (str_eq p.planned_at at)
      || (not (same_occurrence p.occurrence o) || not (same_decision p.initial_decision initial))

  abbrev pub is_other_final : Occurrence → Str → Option ReadinessDecision → Bool
  is_other_final o at none = false
  is_other_final o at (some f) =
      not (str_eq f.evaluated_at at) || not (same_occurrence f.occurrence o)

  abbrev pub is_inconsistent :
      PreparationReport
      → Occurrence
      → ReadinessDecision
      → Option PreparationPlan
      → Option ReadinessDecision
      → Bool
  is_inconsistent r o initial plan final =
      not (same_occurrence o initial.occurrence)
      || (not (str_eq initial.evaluated_at r.processed_at)
          || (is_other_plan o r.processed_at initial plan || is_other_final o r.processed_at final))

  -- The record of the parts, if they hold together.
  unfoldable pub report_with :
      PreparationReport
      → Occurrence
      → ReadinessDecision
      → Option PreparationPlan
      → List StepResult
      → List PreparationEvent
      → Option ReadinessDecision
      → Result ReportFault PreparationReport
  unfolding validate_events validate_steps is_contradictory
  report_with r o initial plan steps events final = do
    throw_if (is_inconsistent r o initial plan final) invalid_report
    validate_events events o r.processed_at
    validate_steps steps plan
    throw_if (is_contradictory r.outcome initial plan steps events final) invalid_report
    ok (record {
      occurrence = o;
      processed_at = r.processed_at;
      initial_decision = initial;
      plan = plan;
      steps = steps;
      events = events;
      final_decision = final;
      outcome = r.outcome;
    })

  abbrev pub report_after :
      PreparationReport → Occurrence → ReadinessDecision → Result ReportFault PreparationReport
  report_after r o initial = do
    plan ← if_present recreate_plan r.plan
    steps ← map_result recreate_step r.steps
    events ← map_result recreate_event r.events
    final ← if_present recreate_final r.final_decision
    report_with r o initial plan steps events final

  unfoldable pub create_preparation_report :
      PreparationReport → Result ReportFault PreparationReport
  unfolding report_with
  create_preparation_report r = do
    throw_if (not (is_canonical_timestamp d (Value.string r.processed_at))) invalid_report
    o ←
        or_throw (create_occurrence d r.occurrence.scheduled_for r.occurrence.wake_scheduled_for)
          invalid_report
    initial ← or_throw (recreate_decision d compare r.initial_decision) invalid_report
    report_after r o initial
