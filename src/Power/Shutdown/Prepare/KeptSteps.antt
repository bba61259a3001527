-- ===== src/Power/Shutdown/Prepare/KeptSteps.antt =====
-- What the steps of a preparation leave alone.
use atlas_manager.Base.{
  List, [], ◌∷◌, Bool, true, false, Str, Option, some, none, Result, ok, err, if◌then◌else◌, suc,
}
use atlas_manager.Power.Shutdown.Action.{Action, Keeps, after-Keeps, lift, ◌>>=◌}
use atlas_manager.Power.Shutdown.Attempt.{
  Attempt, attempt_outcome, attempt_detail, attempt_failure, completed_kind, completed_detail,
  is_unfinished, ServicesPrepared, PreparationPorts, PreparationError, Progress, step_failed,
  with_step,
}
use atlas_manager.Power.Shutdown.Prepare.{
  stop_services, try_step, fail_step, record_step, after_attempt, run_step, go_on, confirmation_or,
  evaluate_with, event, step_of, run_steps, recorded, record_created,
}
use atlas_manager.Power.Shutdown.Records.{
  is_recording, PreparationStep, EventKind, EventDetail, PreparationEvent, PreparationFailure,
  StepOutcome, RecordError, StepDetail, create_step_result, create_event, failed_at,
}
use atlas_manager.Power.Shutdown.Readiness.Keeps.{KeepsReader, KeepsReaders, evaluate_at-Keeps}
use atlas_manager.Base.Int.{ℤ}
use atlas_manager.Base.Platform.{Dates}
use atlas_manager.Power.Tick.{Occurrence}
use atlas_manager.Power.Shutdown.Blocker.{ReadinessDecision}
use atlas_manager.Power.Shutdown.Readiness.{Reader}
use atlas_manager.Power.Shutdown.Report.{map_error}

abbrev pub KeepsOption : {A : Type 0} → (A → Type 0) → Option A → Type 0
KeepsOption P none = Unit
KeepsOption P (some a) = P a

-- No port of the preparation loses the property of the world.
abbrev pub KeepsPreparation : {W : Type 0} → (W → Type 0) → PreparationPorts W → Type 0
KeepsPreparation P p =
    KeepsReaders P p.readiness
    × KeepsOption (λ f. (o : Occurrence) (at : Str) (ids : List Str) → Keeps P (f o at ids))
        p.services
    × KeepsReader P p.tasks
    × KeepsReader P p.backup
    × KeepsReader P p.filesystem
    × ((e : PreparationEvent) → Keeps P (p.record_event e))

module _ (d : Dates) (compare : Str → Str → ℤ) {W : Type 0} (P : W → Type 0)
    (ports : PreparationPorts W) (confirmation : Option (Reader W Bool))
    (keeps : KeepsPreparation P ports) (confirms : KeepsOption (KeepsReader P) confirmation) where
  confirmation_or-Keeps :
      (c : Option (Reader W Bool))
      → KeepsOption (KeepsReader P) c
      → KeepsReader P (confirmation_or d compare ports confirmation c)
  confirmation_or-Keeps none h = keeps.0.0
  confirmation_or-Keeps (some c) h = h

  pub evaluate_with-Keeps :
      (o : Occurrence) (at : Str) → Keeps P (evaluate_with d compare ports confirmation o at)
  unfolding evaluate_with
  evaluate_with-Keeps o at w p =
      evaluate_at-Keeps d compare P ports.readiness
        (confirmation_or d compare ports confirmation confirmation) keeps.0
        (confirmation_or-Keeps confirmation confirms) o at w p

  module _ (o : Occurrence) (at : Str) (initial : ReadinessDecision) where
    pub event-Keeps :
        (k : EventKind) (x : EventDetail) (p : Progress)
        → Keeps P (event d compare ports confirmation o at initial k x p)
    unfolding event
    event-Keeps k x p w h = go (create_event d (suc p.sequence) k o at x)
      where
        last :
            (e : PreparationEvent) (v : W × Result (Unit {0}) (Unit {0}))
            → P v.0
            → P (recorded d compare ports confirmation o at initial {E = PreparationError} p e v).0
        last e (v, ok u) h = h
        last e (v, err u) h = h

        go :
            (c : Result RecordError PreparationEvent)
            → P
                (record_created d compare ports confirmation o at initial {E = PreparationError} p c
                  w).0
        go (err e) = h
        go (ok e) = last e (ports.record_event e w) (keeps.5 e w h)

    stop_services-Keeps :
        (f : Option (Occurrence → Str → List Str → Action W (Unit {0}) ServicesPrepared)) (w : W)
        → KeepsOption (λ f. (o : Occurrence) (at : Str) (ids : List Str) → Keeps P (f o at ids)) f
        → P w
        → P (stop_services d compare ports confirmation o at initial f w).0
    stop_services-Keeps none w k h = h
    stop_services-Keeps (some f) w k h = k o at _ w h

    try_step-Keeps :
        (k : PreparationStep) (w : W)
        → P w
        → P (try_step d compare ports confirmation o at initial k w).0
    unfolding try_step
    try_step-Keeps PreparationStep.record_preparation_started w h = keeps.4 o at w h
    try_step-Keeps PreparationStep.stop_registered_services w h =
        stop_services-Keeps ports.services w keeps.1 h
    try_step-Keeps PreparationStep.drain_active_tasks w h = keeps.2 o at w h
    try_step-Keeps PreparationStep.complete_backup w h = keeps.3 o at w h
    try_step-Keeps PreparationStep.synchronize_filesystem w h = keeps.4 o at w h
    try_step-Keeps PreparationStep.record_preparation_completed w h = keeps.4 o at w h
    try_step-Keeps PreparationStep.reevaluate_readiness w h = keeps.4 o at w h
    try_step-Keeps PreparationStep.record_final_readiness w h = keeps.4 o at w h

    fail_step-Keeps :
        (k : PreparationStep) (f : PreparationFailure) (p : Progress)
        → Keeps P (fail_step d compare ports confirmation o at initial k f p)
    fail_step-Keeps k f p w h =
        after-Keeps P (λ q. lift (ok (q.0, false)))
          (event d compare ports confirmation o at initial EventKind.preparation_failed
            (failed_at k f) p w)
          (event-Keeps EventKind.preparation_failed (failed_at k f) p w h) (λ q v k. k)

    record_step-Keeps :
        (k : PreparationStep) (q : Progress × Bool)
        → Keeps P (record_step d compare ports confirmation o at initial k q)
    record_step-Keeps k (p, true) w h = h
    record_step-Keeps k (p, false) w h =
        fail_step-Keeps k PreparationFailure.event_recording_failed p w h

    after_attempt-Keeps :
        (k : PreparationStep) (a : Attempt) (p : Progress)
        → Keeps P (after_attempt d compare ports confirmation o at initial k a p)
    after_attempt-Keeps k a p w h = go (is_unfinished (attempt_outcome a))
      where
        go :
            (b : Bool)
            → P
                ((if b
                    then fail_step d compare ports confirmation o at initial k (attempt_failure a) p
                    else event d compare ports confirmation o at initial
                        (completed_kind k)
                        (completed_detail a)
                        p
                      >>= record_step d compare ports confirmation o at initial k)
                  w).0
        go true = fail_step-Keeps k (attempt_failure a) p w h
        go false =
            after-Keeps P (record_step d compare ports confirmation o at initial k)
              (event d compare ports confirmation o at initial (completed_kind k)
                (completed_detail a) p w)
              (event-Keeps (completed_kind k) (completed_detail a) p w h) (record_step-Keeps k)

    pub step_of-Keeps :
        (k : PreparationStep) (x : StepOutcome) (detail : Option StepDetail) (p : Progress)
        → Keeps P (step_of d compare ports confirmation o at initial k x detail p)
    step_of-Keeps k x detail p w h =
        after-Keeps P (λ s. lift (ok (with_step s p)))
          (w, map_error step_failed (create_step_result d k at at x detail)) h (λ s v k. k)

    run_step-Keeps :
        (k : PreparationStep) (p : Progress)
        → Keeps P (run_step d compare ports confirmation o at initial k p)
    unfolding run_step
    run_step-Keeps k p w h = go (is_recording d k)
      where
        go :
            (b : Bool)
            → P
                ((if b then lift (ok (p, true)) else λ w.
                    let (w', a) = try_step d compare ports confirmation o at initial k w in
                    (step_of d compare ports confirmation o at initial k
                          (attempt_outcome a)
                          (some (attempt_detail k a))
                          p
                        >>= after_attempt d compare ports confirmation o at initial k a)
                      w')
                  w).0
        go true = h
        go false =
            let (w', a) = try_step d compare ports confirmation o at initial k w in
            after-Keeps P (after_attempt d compare ports confirmation o at initial k a)
              (step_of d compare ports confirmation o at initial k (attempt_outcome a)
                (some (attempt_detail k a)) p w')
              (step_of-Keeps k (attempt_outcome a) (some (attempt_detail k a)) p w'
                (try_step-Keeps k w h))
              (after_attempt-Keeps k a)

    go_on-Keeps :
        (f : Progress → Action W PreparationError (Progress × Bool)) (q : Progress × Bool)
        → ((p : Progress) → Keeps P (f p))
        → Keeps P (go_on d compare ports confirmation o at initial f q)
    go_on-Keeps f (p, true) k w h = k p w h
    go_on-Keeps f (p, false) k w h = h

    pub run_steps-Keeps :
        (ks : List PreparationStep) (p : Progress)
        → Keeps P (run_steps d compare ports confirmation o at initial ks p)
    unfolding run_steps
    run_steps-Keeps [] p w h = h
    run_steps-Keeps (k ∷ ks) p w h =
        let rest = run_steps-Keeps ks in
        after-Keeps P
          (go_on d compare ports confirmation o at initial
            (run_steps d compare ports confirmation o at initial ks))
          (run_step d compare ports confirmation o at initial k p w) (run_step-Keeps k p w h)
          (λ q. go_on-Keeps (run_steps d compare ports confirmation o at initial ks) q rest)
