-- ===== src/Power/Shutdown/Execute/Keeps.antt =====
-- An execution requests the shutdown only if it says so.
use atlas_manager.Base.{
  ◌≡◌, refl, ◌⊎◌, inl, inr, Bool, true, false, not, ◌&&◌, ◌||◌, Str, Option, some, none, Result, ok,
  err, if◌then◌else◌,
}
use atlas_manager.Base.Int.{ℤ}
use atlas_manager.Base.Platform.{Dates}
use atlas_manager.Power.Tick.{Occurrence, ExecutionOutcome}
use atlas_manager.Power.Shutdown.Action.{Action, after, or_else, Keeps, or_else-world}
use atlas_manager.Power.Shutdown.Blocker.{ReadinessDecision}
use atlas_manager.Power.Shutdown.Readiness.{Reader, Readers, is_before, is_at_or_after}
use atlas_manager.Power.Shutdown.Readiness.Keeps.{KeepsReader, KeepsReaders, evaluate_at-Keeps}
use atlas_manager.Power.Shutdown.Plan.{is_approved}
use atlas_manager.Power.Shutdown.Report.{PreparationOutcome, PreparationReport}
use atlas_manager.Power.Shutdown.Attempt.{PreparationPorts}
use atlas_manager.Power.Shutdown.Prepare.KeptSteps.{KeepsOption, KeepsPreparation}
use atlas_manager.Power.Shutdown.Prepare.Keeps.{prepare_at-Keeps}
use atlas_manager.Power.Shutdown.Wake.{
  WakeMutation, ShutdownResult, create_wake_mutation, create_shutdown_result,
}
use atlas_manager.Power.Shutdown.Result.{ExecutionResult, plain_result, create_execution_result}
use atlas_manager.Power.Shutdown.Result.Laws.{create_execution_result-outcome}
use atlas_manager.Power.Shutdown.Execute.{
  ExecutionPorts, ExecutionOptions, ExecutionError, ClaimOutcome, claimed, duplicate, claim_failed,
  wake_alarm_preparation_failed, shutdown_failed_after_wake_scheduled, checked, end_with,
  executed_result, shut_down, after_claim, claim_and_shut_down, after_preparation, prepare_with,
  prepare_or_claim, after_decision, reader_of, evaluate_first, execute_due, execute_core, has_value,
  rejected_result,
}

-- The execution reports that the shutdown was requested, or failed at this request.
abbrev pub HasRequested : Result ExecutionError ExecutionResult → Type 0
HasRequested (ok x) = x.outcome ≡ ExecutionOutcome.executed
HasRequested (err shutdown_failed_after_wake_scheduled) = Unit
HasRequested (err _) = ⊥

-- No port but the request of the shutdown loses the property of the world.
abbrev pub KeepsExecution : {W : Type 0} → (W → Type 0) → ExecutionPorts W → Type 0
KeepsExecution P ports =
    KeepsOption (KeepsReaders P) ports.readiness
    × KeepsOption (KeepsPreparation P) ports.preparation
    × ((o : Occurrence) → Keeps P (ports.claim o))
    × ((at wake : Str) → Keeps P (ports.schedule_wake at wake))

module _ (d : Dates) (compare : Str → Str → ℤ) {W : Type 0} (P : W → Type 0)
    (ports : ExecutionPorts W) (options : ExecutionOptions W) (keeps : KeepsExecution P ports)
    (confirms : KeepsOption (KeepsReader P) options.confirmation) (o : Occurrence) (at : Str) where
  abbrev IsHonest : W × Result ExecutionError ExecutionResult → Type 0
  IsHonest r = P r.0 ⊎ HasRequested r.1

  after-IsHonest :
      {A : Type 0} (f : A → Action W ExecutionError ExecutionResult)
      (r : W × Result ExecutionError A)
      → P r.0
      → ((a : A) (w : W) → P w → IsHonest (f a w))
      → IsHonest (after f r)
  after-IsHonest f (w, ok a) h k = k a w h
  after-IsHonest f (w, err e) h k = inl h

  checked-world :
      {E A B : Type 0} (create : A → Result E B) (r : W × Result (Unit {0}) A)
      → P r.0
      → P (checked create r).0
  checked-world create (w, ok a) h = h
  checked-world create (w, err e) h = h

  shut_down-IsHonest :
      (report : Option PreparationReport) (m : WakeMutation) (w : W)
      → IsHonest (shut_down d compare ports options o at report m w)
  shut_down-IsHonest report m w =
      go (checked (create_shutdown_result d) (ports.request_shutdown at w))
    where
      made :
          (s : ShutdownResult) (v : W) (c : Result _ ExecutionResult)
          → create_execution_result d compare
              (executed_result d compare ports options o at report m s)
            ≡ c
          → IsHonest (or_else shutdown_failed_after_wake_scheduled (v, c))
      made s v (ok x) e = inr (
          create_execution_result-outcome d compare
            (executed_result d compare ports options o at report m s) e)
      made s v (err x) e = inr tt

      go :
          (q : W × Result (Unit {0}) ShutdownResult)
          → IsHonest (
              after
                (λ s w. or_else shutdown_failed_after_wake_scheduled (
                  w,
                  create_execution_result d compare
                      (executed_result d compare ports options o at report m s),
                ))
                (or_else shutdown_failed_after_wake_scheduled q))
      go (v, err e) = inr tt
      go (v, ok s) =
          made s v
            (create_execution_result d compare
              (executed_result d compare ports options o at report m s))
            refl

  claim_and_shut_down-IsHonest :
      (report : Option PreparationReport) (w : W)
      → P w
      → IsHonest (claim_and_shut_down d compare ports options o at report w)
  unfolding claim_and_shut_down
  claim_and_shut_down-IsHonest report w h =
      after-IsHonest (after_claim d compare ports options o at report)
        (or_else claim_failed (ports.claim o w))
        (or_else-world P claim_failed (ports.claim o w) (keeps.2 o w h)) go
    where
      go :
          (c : ClaimOutcome) (v : W)
          → P v
          → IsHonest (after_claim d compare ports options o at report c v)
      go duplicate v k = inl k
      go claimed v k =
          let set =
            checked (create_wake_mutation d) (ports.schedule_wake at o.wake_scheduled_for v) in
          after-IsHonest (shut_down d compare ports options o at report)
            (or_else wake_alarm_preparation_failed set)
            (or_else-world P wake_alarm_preparation_failed set (
              checked-world (create_wake_mutation d) (ports.schedule_wake at o.wake_scheduled_for v)
                (keeps.3 at o.wake_scheduled_for v k)))
            (λ m u l. shut_down-IsHonest report m u)

  after_preparation-IsHonest :
      (f : ReadinessDecision) (report : PreparationReport) (t : PreparationOutcome) (w : W)
      → P w
      → IsHonest (after_preparation d compare ports options o at f report t w)
  after_preparation-IsHonest f report PreparationOutcome.blocked w h = inl h
  after_preparation-IsHonest f report PreparationOutcome.incomplete w h = inl h
  after_preparation-IsHonest f report PreparationOutcome.not_required w h =
      claim_and_shut_down-IsHonest (some report) w h
  after_preparation-IsHonest f report PreparationOutcome.prepared w h =
      claim_and_shut_down-IsHonest (some report) w h

  prepare_or_claim-IsHonest :
      (f : ReadinessDecision) (p : Option (PreparationPorts W)) (b : Bool) (w : W)
      → KeepsOption (KeepsPreparation P) p
      → P w
      → IsHonest (prepare_or_claim d compare ports options o at f p b w)
  prepare_or_claim-IsHonest f (some p) true w k h =
      after-IsHonest (λ t. after_preparation d compare ports options o at f t t.outcome)
        (prepare_with d compare ports options o at p f w)
        (prepare_at-Keeps d compare P p options.confirmation k confirms o at (some f) w h)
        (λ t v l. after_preparation-IsHonest f t t.outcome v l)
  prepare_or_claim-IsHonest f (some p) false w k h = claim_and_shut_down-IsHonest none w h
  prepare_or_claim-IsHonest f none b w k h = claim_and_shut_down-IsHonest none w h

  after_decision-IsHonest :
      (f : ReadinessDecision) (w : W)
      → P w
      → IsHonest (after_decision d compare ports options o at f w)
  after_decision-IsHonest f w h =
      go (not (is_approved f) && (not (has_value ports.preparation) || not options.prepares))
    where
      go :
          (b : Bool)
          → IsHonest (
              (if b
                  then end_with d compare ports options o at
                      (rejected_result d compare ports options o at f none)
                  else prepare_or_claim d compare ports options o at f ports.preparation
                      options.prepares)
                w)
      go true = inl h
      go false = prepare_or_claim-IsHonest f ports.preparation options.prepares w keeps.1 h

  reader_of-Keeps :
      (r : Readers W) (c : Option (Reader W Bool))
      → KeepsReaders P r
      → KeepsOption (KeepsReader P) c
      → KeepsReader P (reader_of d compare ports options o at r c)
  reader_of-Keeps r none h k = h.0
  reader_of-Keeps r (some c) h k = k

  execute_due-IsHonest :
      (r : Option (Readers W)) (w : W)
      → KeepsOption (KeepsReaders P) r
      → P w
      → IsHonest (execute_due d compare ports options o at r w)
  execute_due-IsHonest none w k h = claim_and_shut_down-IsHonest none w h
  execute_due-IsHonest (some r) w k h =
      after-IsHonest (after_decision d compare ports options o at)
        (evaluate_first d compare ports options o at r w)
        (evaluate_at-Keeps d compare P r
          (reader_of d compare ports options o at r options.confirmation) k
          (reader_of-Keeps r options.confirmation k confirms) o at w h)
        after_decision-IsHonest

  -- An execution that neither reports `executed` nor fails at the request of the shutdown does not request it: a
  -- property of the world that all the ports but this request keep, the readers, the preparation, the claim and
  -- the wake alarm, holds after the execution if it held before.
  pub execute_core-HasRequested :
      (w : W)
      → P w
      → P (execute_core d compare ports options o at w).0
        ⊎ HasRequested (execute_core d compare ports options o at w).1
  unfolding execute_core
  execute_core-HasRequested w h =
      go (is_before (d.parse at) (d.parse o.scheduled_for))
        (is_at_or_after (d.parse at) (d.parse o.wake_scheduled_for))
    where
      go :
          (a b : Bool)
          → IsHonest (
              (if a
                  then end_with d compare ports options o at
                      (plain_result o at ExecutionOutcome.not_due)
                  else if b
                  then end_with d compare ports options o at
                      (plain_result o at ExecutionOutcome.stale)
                  else execute_due d compare ports options o at ports.readiness)
                w)
      go true b = inl h
      go false true = inl h
      go false false = execute_due-IsHonest ports.readiness w keeps.0 h
