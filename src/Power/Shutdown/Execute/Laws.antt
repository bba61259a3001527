-- ===== src/Power/Shutdown/Execute/Laws.antt =====
-- What an execution that reports `executed` has done.
use atlas_manager.Power.Shutdown.Execute.Claim.{
  ShutsDown, end_with-executed, claim_and_shut_down-ShutsDown,
}
use atlas_manager.Base.{
  ◌≡◌, refl, sym, ap, ◌∙◌, ◌⊎◌, inl, inr, Bool, true, false, not, ◌&&◌, ◌||◌, Str, Option, some,
  none, Result, ok, err, if◌then◌else◌,
}
use atlas_manager.Base.Int.{ℤ}
use atlas_manager.Base.Platform.{Dates}
use atlas_manager.Power.Tick.{Occurrence, ExecutionOutcome}
use atlas_manager.Power.Shutdown.Action.{>>=-ok}
use atlas_manager.Power.Shutdown.Blocker.{ReadinessDecision}
use atlas_manager.Power.Shutdown.Readiness.{Readers, is_before, is_at_or_after}
use atlas_manager.Power.Shutdown.Plan.{is_approved}
use atlas_manager.Power.Shutdown.Report.{PreparationOutcome, PreparationReport, map_error}
use atlas_manager.Power.Shutdown.Attempt.{PreparationPorts, PreparationError}
use atlas_manager.Power.Shutdown.Prepare.{prepare_at}
use atlas_manager.Power.Shutdown.Prepare.Run.{IsApproved}
use atlas_manager.Power.Shutdown.Prepare.Laws.{prepare_at-Ends, Ends}
use atlas_manager.Power.Shutdown.Result.{ExecutionResult, plain_result}
use atlas_manager.Power.Shutdown.Execute.{
  ExecutionPorts, ExecutionOptions, ExecutionError, preparation_failed, end_with, after_preparation,
  prepare_with, prepare_or_claim, after_decision, evaluate_first, execute_due, execute_core,
  has_value, rejected_result,
}

abbrev mapped :
    {W : Type 0}
    → W × Result PreparationError PreparationReport
    → W × Result ExecutionError PreparationReport
mapped r = (r.0, map_error preparation_failed r.1)

module _ (d : Dates) (compare : Str → Str → ℤ) {W : Type 0} (ports : ExecutionPorts W)
    (options : ExecutionOptions W) (o : Occurrence) (at : Str) where
  -- Before the claim the readiness was approved, and nothing but events was recorded since; an execution
  -- that has no readiness to evaluate claims at once.
  abbrev pub IsReady : Option (Readers W) → W → W → Type 0
  IsReady none w v = v ≡ w
  IsReady (some r) w v =
      ((f : ReadinessDecision) × (evaluate_first d compare ports options o at r w ≡ (v, ok f))
        × (is_approved f ≡ true))
      ⊎ ((p : PreparationPorts W) × (ports.preparation ≡ some p)
          × IsApproved d compare p options.confirmation o at v)

  -- Where the claim is made, and what happens then.
  abbrev pub Executes : Option (Readers W) → W → W → Type 0
  Executes r w w' = (v : W) × IsReady r w v × ShutsDown d compare ports options o at v w'

  after_preparation-Executes :
      (f : ReadinessDecision) (report : PreparationReport) (r : Readers W) (p : PreparationPorts W)
      (w v : W) {w' : W} {x : ExecutionResult}
      → evaluate_first d compare ports options o at r w ≡ (v, ok f)
      → ports.preparation ≡ some p
      → (u : W) → Ends d compare p options.confirmation at f o v u report
      → after_preparation d compare ports options o at f report report.outcome u ≡ (w', ok x)
      → x.outcome ≡ ExecutionOutcome.executed
      → Executes (some r) w w'
  after_preparation-Executes f report r p w v {w'} {x} e q u ends h k =
      go report.outcome refl ends h
    where
      go :
          (t : PreparationOutcome)
          → report.outcome ≡ t
          → Ends d compare p options.confirmation at f o v u report
          → after_preparation d compare ports options o at f report t u ≡ (w', ok x)
          → Executes (some r) w w'
      go PreparationOutcome.blocked same ends h =
          end_with-executed d compare ports options o at
            (rejected_result d compare ports options o at f (some report)) (λ n. cc) h k
      go PreparationOutcome.incomplete same ends h =
          end_with-executed d compare ports options o at
            (record (plain_result o at ExecutionOutcome.preparation_incomplete) {
              preparation_report = some report;
            })
            (λ n. cc) h k
      go PreparationOutcome.not_required same (inl n) h = cc
      go PreparationOutcome.not_required same (inr (inl n)) h = cc
      go PreparationOutcome.not_required same (inr (inr (inl (n, a, back)))) h = (
        u,
        inl (f, e ∙ ap (λ t. (t, ok f)) (sym back), a),
        claim_and_shut_down-ShutsDown d compare ports options o at (some report) u h k,
      )
      go PreparationOutcome.not_required same (inr (inr (inr (n, a)))) h = cc
      go PreparationOutcome.prepared same (inl n) h = cc
      go PreparationOutcome.prepared same (inr (inl n)) h = cc
      go PreparationOutcome.prepared same (inr (inr (inl (n, a, back)))) h = cc
      go PreparationOutcome.prepared same (inr (inr (inr (n, a)))) h = (
        u,
        inr (p, q, a),
        claim_and_shut_down-ShutsDown d compare ports options o at (some report) u h k,
      )

  prepare_or_claim-Executes :
      (f : ReadinessDecision) (r : Readers W) (p : Option (PreparationPorts W)) (b : Bool) (w v : W)
      {w' : W} {x : ExecutionResult}
      → evaluate_first d compare ports options o at r w ≡ (v, ok f)
      → ports.preparation ≡ p
      → ((is_approved f ≡ true) ⊎ ((has_value p ≡ true) × (b ≡ true)))
      → prepare_or_claim d compare ports options o at f p b v ≡ (w', ok x)
      → x.outcome ≡ ExecutionOutcome.executed
      → Executes (some r) w w'
  prepare_or_claim-Executes f r (some p) true w v e q a h k =
      let (u, report, e', l) =
        >>=-ok (prepare_with d compare ports options o at p f)
          (λ t. after_preparation d compare ports options o at f t t.outcome) h in
      let made = prepare_at d compare p options.confirmation o at (some f) v in
      after_preparation-Executes f report r p w v e q u
        (prepare_at-Ends d compare p options.confirmation at f o v (mapped-ok made e')) l k
    where
      mapped-ok :
          (r : W × Result PreparationError PreparationReport) {u : W} {t : PreparationReport}
          → mapped r ≡ (u, ok t)
          → r ≡ (u, ok t)
      mapped-ok (u, ok t) h = cc
      mapped-ok (u, err t) h = cc
  prepare_or_claim-Executes f r (some p) false w v e q (inl a) h k =
      (v, inl (f, e, a), claim_and_shut_down-ShutsDown d compare ports options o at none v h k)
  prepare_or_claim-Executes f r (some p) false w v e q (inr (a, b)) h k = cc
  prepare_or_claim-Executes f r none b w v e q (inl a) h k =
      (v, inl (f, e, a), claim_and_shut_down-ShutsDown d compare ports options o at none v h k)
  prepare_or_claim-Executes f r none b w v e q (inr (a, c)) h k = cc

  after_decision-Executes :
      (f : ReadinessDecision) (r : Readers W) (w v : W) {w' : W} {x : ExecutionResult}
      → evaluate_first d compare ports options o at r w ≡ (v, ok f)
      → after_decision d compare ports options o at f v ≡ (w', ok x)
      → x.outcome ≡ ExecutionOutcome.executed
      → Executes (some r) w w'
  after_decision-Executes f r w v {w'} {x} e h k =
      go (not (is_approved f) && (not (has_value ports.preparation) || not options.prepares)) refl h
    where
      apart :
          (a b c : Bool)
          → (not a && (not b || not c)) ≡ false
          → (a ≡ true) ⊎ ((b ≡ true) × (c ≡ true))
      apart true b c h = inl refl
      apart false true true h = inr (refl, refl)
      apart false true false h = cc
      apart false false c h = cc

      go :
          (b : Bool)
          → (not (is_approved f) && (not (has_value ports.preparation) || not options.prepares)) ≡ b
          → (if b
                then end_with d compare ports options o at
                    (rejected_result d compare ports options o at f none)
                else prepare_or_claim d compare ports options o at f ports.preparation
                    options.prepares)
              v
            ≡ (w', ok x)
          → Executes (some r) w w'
      go true same h =
          end_with-executed d compare ports options o at
            (rejected_result d compare ports options o at f none) (λ n. cc) h k
      go false same h =
          prepare_or_claim-Executes f r ports.preparation options.prepares w v e refl
            (apart (is_approved f) (has_value ports.preparation) options.prepares same) h k

  execute_due-Executes :
      (r : Option (Readers W)) (w : W) {w' : W} {x : ExecutionResult}
      → execute_due d compare ports options o at r w ≡ (w', ok x)
      → x.outcome ≡ ExecutionOutcome.executed
      → Executes r w w'
  execute_due-Executes none w h k =
      (w, refl, claim_and_shut_down-ShutsDown d compare ports options o at none w h k)
  execute_due-Executes (some r) w h k =
      let (v, f, e, l) =
        >>=-ok (evaluate_first d compare ports options o at r)
          (after_decision d compare ports options o at) h in
      after_decision-Executes f r w v e l k

  -- An execution that reports `executed` happens when the occurrence is due and before its wake time. The readiness
  -- was approved, and then nothing but events of the preparation was recorded until the occurrence was claimed;
  -- then the wake alarm was set for the wake time, and last the shutdown was requested. An execution without a
  -- readiness to evaluate claims at once.
  pub execute_core-Executes :
      (w : W) {w' : W} {x : ExecutionResult}
      → execute_core d compare ports options o at w ≡ (w', ok x)
      → x.outcome ≡ ExecutionOutcome.executed
      → (is_before (d.parse at) (d.parse o.scheduled_for) ≡ false)
        × (is_at_or_after (d.parse at) (d.parse o.wake_scheduled_for) ≡ false)
        × Executes ports.readiness w w'
  unfolding execute_core
  execute_core-Executes w {w'} {x} h k =
      go (is_before (d.parse at) (d.parse o.scheduled_for)) refl
        (is_at_or_after (d.parse at) (d.parse o.wake_scheduled_for)) refl h
    where
      go :
          (a : Bool)
          → is_before (d.parse at) (d.parse o.scheduled_for) ≡ a
          → (b : Bool) → is_at_or_after (d.parse at) (d.parse o.wake_scheduled_for) ≡ b
          → (if a
                then end_with d compare ports options o at
                    (plain_result o at ExecutionOutcome.not_due)
                else if b
                then end_with d compare ports options o at
                    (plain_result o at ExecutionOutcome.stale)
                else execute_due d compare ports options o at ports.readiness)
              w
            ≡ (w', ok x)
          → (is_before (d.parse at) (d.parse o.scheduled_for) ≡ false)
            × (is_at_or_after (d.parse at) (d.parse o.wake_scheduled_for) ≡ false)
            × Executes ports.readiness w w'
      go true e b f h =
          end_with-executed d compare ports options o at
            (plain_result o at ExecutionOutcome.not_due) (λ n. cc) h k
      go false e true f h =
          end_with-executed d compare ports options o at (plain_result o at ExecutionOutcome.stale)
            (λ n. cc) h k
      go false e false f h = (e, f, execute_due-Executes ports.readiness w h k)
