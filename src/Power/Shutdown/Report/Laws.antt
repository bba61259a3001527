-- ===== src/Power/Shutdown/Report/Laws.antt =====
-- A report that holds together keeps its outcome.
use atlas_manager.Base.{
  ◌≡◌, Bool, true, false, Str, Option, List, Result, ok, err, ◌>>=◌, ◌>>◌, not, throw_if,
  map_result,
}
use atlas_manager.Base.Int.{ℤ}
use atlas_manager.Base.Platform.{Dates, is_canonical_timestamp}
use atlas_manager.Power.Shutdown.Report.{
  PreparationReport, ReportFault, create_preparation_report, report_with, report_after,
  is_inconsistent, is_contradictory, validate_events, validate_steps, if_present, recreate_plan,
  recreate_step, recreate_event, recreate_final,
}
use atlas_manager.Power.Shutdown.Plan.{PreparationPlan, recreate_decision}
use atlas_manager.Power.Shutdown.Blocker.{ReadinessDecision, or_throw}
use atlas_manager.Power.Shutdown.Records.{StepResult, PreparationEvent}
use atlas_manager.Power.Tick.{Occurrence}
use atlas_manager.Power.Interval.{create_occurrence}
use atlas_manager.Base.Values.{Value}

module _ (d : Dates) (compare : Str → Str → ℤ) (r : PreparationReport) {s : PreparationReport} where
  report_with-outcome :
      (o : Occurrence) (initial : ReadinessDecision) (plan : Option PreparationPlan)
      (steps : List StepResult) (events : List PreparationEvent) (final : Option ReadinessDecision)
      → report_with d compare r o initial plan steps events final ≡ ok s
      → s.outcome ≡ r.outcome
  unfolding report_with
  report_with-outcome o initial plan steps events final h =
      go (is_inconsistent d compare r o initial plan final)
        (validate_events events o r.processed_at) (validate_steps steps plan)
        (is_contradictory r.outcome initial plan steps events final) h
    where
      go :
          (a : Bool) (b c : Result ReportFault (Unit {0})) (e : Bool) {s : PreparationReport}
          → (throw_if a ReportFault.invalid_report
              >> (b
                  >> (c
                      >> (throw_if e ReportFault.invalid_report
                          >> ok (record {
                            occurrence = o;
                            processed_at = r.processed_at;
                            initial_decision = initial;
                            plan = plan;
                            steps = steps;
                            events = events;
                            final_decision = final;
                            outcome = r.outcome;
                          })))))
            ≡ ok s
          → s.outcome ≡ r.outcome
      go true b c e h = cc
      go false (err b) c e h = cc
      go false (ok b) (err c) e h = cc
      go false (ok b) (ok c) true h = cc
      go false (ok b) (ok c) false h = cc

  report_after-outcome :
      (o : Occurrence) (initial : ReadinessDecision)
      → report_after d compare r o initial ≡ ok s
      → s.outcome ≡ r.outcome
  report_after-outcome o initial h =
      go (if_present (recreate_plan d compare) r.plan)
        (map_result (recreate_step d compare) r.steps)
        (map_result (recreate_event d compare) r.events)
        (if_present (recreate_final d compare) r.final_decision) h
    where
      go :
          (a : Result ReportFault (Option PreparationPlan))
          (b : Result ReportFault (List StepResult))
          (c : Result ReportFault (List PreparationEvent))
          (e : Result ReportFault (Option ReadinessDecision))
          → (a >>= λ plan. b >>= λ steps. c >>= λ events.
              e >>= λ final. report_with d compare r o initial plan steps events final)
            ≡ ok s
          → s.outcome ≡ r.outcome
      go (err a) b c e h = cc
      go (ok a) (err b) c e h = cc
      go (ok a) (ok b) (err c) e h = cc
      go (ok a) (ok b) (ok c) (err e) h = cc
      go (ok a) (ok b) (ok c) (ok e) h = report_with-outcome o initial a b c e h

  pub create_preparation_report-outcome :
      create_preparation_report d compare r ≡ ok s → s.outcome ≡ r.outcome
  unfolding create_preparation_report
  create_preparation_report-outcome h =
      go (not (is_canonical_timestamp d (Value.string r.processed_at)))
        (or_throw (create_occurrence d r.occurrence.scheduled_for r.occurrence.wake_scheduled_for)
          ReportFault.invalid_report)
        (or_throw (recreate_decision d compare r.initial_decision) ReportFault.invalid_report) h
    where
      go :
          (a : Bool) (b : Result ReportFault Occurrence) (c : Result ReportFault ReadinessDecision)
          → (throw_if a ReportFault.invalid_report
              >> (b >>= λ o. c >>= λ initial. report_after d compare r o initial))
            ≡ ok s
          → s.outcome ≡ r.outcome
      go true b c h = cc
      go false (err b) c h = cc
      go false (ok b) (err c) h = cc
      go false (ok b) (ok c) h = report_after-outcome b c h
