-- ===== src/Power/Shutdown/Execute/Claim.antt =====
-- What an execution does from the claim on.
use mathlib.Core.Path.{subst}
use atlas_manager.Base.{◌≡◌, refl, sym, ap, ◌∙◌, Str, Option, Result, ok, err}
use atlas_manager.Base.Int.{ℤ}
use atlas_manager.Base.Platform.{Dates}
use atlas_manager.Power.Tick.{Occurrence, ExecutionOutcome}
use atlas_manager.Power.Shutdown.Action.{or_else, >>=-ok, or_else-ok}
use atlas_manager.Power.Shutdown.Report.{PreparationReport, map_error}
use atlas_manager.Power.Shutdown.Prepare.Run.{map_error-ok}
use atlas_manager.Power.Shutdown.Wake.{
  WakeMutation, ShutdownResult, create_wake_mutation, create_shutdown_result,
}
use atlas_manager.Power.Shutdown.Result.{ExecutionResult, plain_result, create_execution_result}
use atlas_manager.Power.Shutdown.Result.Laws.{
  SetsAlarm, create_wake_mutation-eq, create_execution_result-outcome,
  create_execution_result-SetsAlarm,
}
use atlas_manager.Power.Shutdown.Execute.{
  ExecutionPorts, ExecutionOptions, ClaimOutcome, claimed, duplicate,
  shutdown_failed_after_wake_scheduled, wake_alarm_preparation_failed, claim_failed, result_failed,
  checked, end_with, executed_result, shut_down, after_claim, claim_and_shut_down,
}

checked-ok :
    {W E A B : Type 0} (create : A → Result E B) (r : W × Result (Unit {0}) A) {w : W} {b : B}
    → checked create r ≡ (w, ok b)
    → (a : A) × (r ≡ (w, ok a)) × (create a ≡ ok b)
checked-ok create (w, err e) h = cc
checked-ok {W = W} {E = E} {A = A} {B = B} create (w, ok a) {w = v} {b} h = go (create a) refl h
  where
    go :
        (c : Result E B)
        → create a ≡ c
        → ◌≡◌ {A = W × Result (Unit {0}) B} (w, map_error (λ e. tt) c) (v, ok b)
        → (x : A) × (◌≡◌ {A = W × Result (Unit {0}) A} (w, ok a) (v, ok x)) × (create x ≡ ok b)
    go (ok y) e h = (a, cc, cc)
    go (err y) e h = cc

module _ (d : Dates) (compare : Str → Str → ℤ) {W : Type 0} (ports : ExecutionPorts W)
    (options : ExecutionOptions W) (o : Occurrence) (at : Str) where
  -- The occurrence was claimed, then the wake alarm was set for its wake time, then the shutdown was requested.
  abbrev pub ShutsDown : W → W → Type 0
  ShutsDown w w' =
      (u v : W) × (m : WakeMutation) × (s : ShutdownResult) × (ports.claim o w ≡ (u, ok claimed))
      × (ports.schedule_wake at o.wake_scheduled_for u ≡ (v, ok m))
      × SetsAlarm o at m
      × (ports.request_shutdown at v ≡ (w', ok s))

  end_with-outcome :
      (r : ExecutionResult) {w w' : W} {x : ExecutionResult}
      → end_with d compare ports options o at r w ≡ (w', ok x)
      → x.outcome ≡ r.outcome
  end_with-outcome r h =
      create_execution_result-outcome d compare r
        (map_error-ok result_failed (create_execution_result d compare r) (ap (λ p. p.1) h))

  -- The other ends are not those of an execution.
  pub end_with-executed :
      {A : Type 0} (r : ExecutionResult) {w w' : W} {x : ExecutionResult}
      → (ExecutionOutcome.executed ≡ r.outcome → ⊥)
      → end_with d compare ports options o at r w ≡ (w', ok x)
      → x.outcome ≡ ExecutionOutcome.executed
      → A
  end_with-executed r n h e = absurd (n (sym e ∙ end_with-outcome r h))

  shut_down-requests :
      (report : Option PreparationReport) (m : WakeMutation) (w : W) {w' : W} {x : ExecutionResult}
      → shut_down d compare ports options o at report m w ≡ (w', ok x)
      → (s : ShutdownResult) × (ports.request_shutdown at w ≡ (w', ok s)) × SetsAlarm o at m
  shut_down-requests report m w h =
      let (v, s, e, k) =
        >>=-ok
          (λ w.
            or_else shutdown_failed_after_wake_scheduled
              (checked (create_shutdown_result d) (ports.request_shutdown at w)))
          (λ s w. or_else shutdown_failed_after_wake_scheduled (
            w,
            create_execution_result d compare
                (executed_result d compare ports options o at report m s),
          ))
          h in
      let (t, e', k') =
        checked-ok (create_shutdown_result d) (ports.request_shutdown at w)
          (or_else-ok shutdown_failed_after_wake_scheduled _ e) in
      let made = or_else-ok shutdown_failed_after_wake_scheduled _ k in
      (
        t,
        e' ∙ ap (λ q. (q.0, ok t)) made,
        create_execution_result-SetsAlarm d compare
            (executed_result d compare ports options o at report m s) m refl refl
            (ap (λ q. q.1) made),
      )

  pub claim_and_shut_down-ShutsDown :
      (report : Option PreparationReport) (w : W) {w' : W} {x : ExecutionResult}
      → claim_and_shut_down d compare ports options o at report w ≡ (w', ok x)
      → x.outcome ≡ ExecutionOutcome.executed
      → ShutsDown w w'
  unfolding claim_and_shut_down
  claim_and_shut_down-ShutsDown report w {w'} {x} h e =
      let (u, c, e', k) =
        >>=-ok (λ w. or_else claim_failed (ports.claim o w))
          (after_claim d compare ports options o at report) h in
      go u c (or_else-ok claim_failed (ports.claim o w) e') k
    where
      go :
          (u : W) (c : ClaimOutcome)
          → ports.claim o w ≡ (u, ok c)
          → after_claim d compare ports options o at report c u ≡ (w', ok x)
          → ShutsDown w w'
      go u duplicate e' k =
          end_with-executed (plain_result o at ExecutionOutcome.duplicate) (λ n. cc) k e
      go u claimed e' k =
          let (v, m, f, l) =
            >>=-ok
              (λ w.
                or_else wake_alarm_preparation_failed (
                  checked (create_wake_mutation d) (ports.schedule_wake at o.wake_scheduled_for w)))
              (shut_down d compare ports options o at report) k in
          let (n, f', same) =
            checked-ok (create_wake_mutation d) (ports.schedule_wake at o.wake_scheduled_for u)
              (or_else-ok wake_alarm_preparation_failed _ f) in
          let (t, asked, sets) = shut_down-requests report m v l in
          (
            u,
            v,
            n,
            t,
            e',
            f',
            subst (SetsAlarm o at) (create_wake_mutation-eq d n same) sets,
            asked,
          )
