-- ===== src/Services/Reconcile/Due.antt =====
-- When the planner of a reconciliation decides on a start.
use atlas_manager.Base.{◌≡◌, refl, ap, ◌∙◌, Str, Option, some, none, Result, ok, err, ◌>>=◌}
use atlas_manager.Base.Values.{Value}
use atlas_manager.Base.Platform.{Dates, Zone}
use atlas_manager.Scheduling.Policy.{Policy}
use atlas_manager.Scheduling.Override.{Override, evaluate_with_override}
use atlas_manager.Scheduling.Evaluator.{Expectation, available, unavailable, manual, disabled}
use atlas_manager.Scheduling.Errors.{SchedulingError}
use atlas_manager.Services.State.{ServiceState}
use atlas_manager.Services.Reconcile.{
  start, Decision, execute, decide, ReconcileError, port_failed, ReconcilePorts, scheduled_result,
  present, plan_reconciliation,
}

decide-start :
    (e : Expectation) (s : ServiceState)
    → decide e s ≡ execute start
    → (e ≡ available) × (s ≡ ServiceState.stopped)
decide-start available ServiceState.stopped h = (refl, refl)
decide-start available ServiceState.running h = cc
decide-start available ServiceState.failed h = cc
decide-start available ServiceState.unknown h = cc
decide-start unavailable ServiceState.running h = cc
decide-start unavailable ServiceState.stopped h = cc
decide-start unavailable ServiceState.failed h = cc
decide-start unavailable ServiceState.unknown h = cc
decide-start manual ServiceState.stopped h = cc
decide-start manual ServiceState.running h = cc
decide-start manual ServiceState.failed h = cc
decide-start manual ServiceState.unknown h = cc
decide-start disabled ServiceState.stopped h = cc
decide-start disabled ServiceState.running h = cc
decide-start disabled ServiceState.failed h = cc
decide-start disabled ServiceState.unknown h = cc

-- What makes the planner decide on a start.
abbrev pub StartDue : {W : Type 0} → Dates → Zone → ReconcilePorts W → Str → W → Type 0
StartDue d zone ports id w =
    (policy : Policy) × (override : Option Override) × (ports.find_policy id ≡ some policy)
    × (ports.find_override id w ≡ some override)
    × (ports.read_status id w ≡ some ServiceState.stopped)
    × (evaluate_with_override d zone policy override (Value.date (some (ports.instant w)))
        ≡ ok available)

module _ {W : Type 0} (d : Dates) (zone : Zone) (ports : ReconcilePorts W) where
  pub plan-StartDue :
      (id : Str) (w : W)
      → plan_reconciliation d zone ports id w ≡ ok (execute start)
      → StartDue d zone ports id w
  unfolding plan_reconciliation
  plan-StartDue id w h =
      from (ports.find_policy id) refl (ports.find_override id w) refl (ports.read_status id w) refl
        h
    where
      decided :
          (policy : Policy) (override : Option Override) (state : ServiceState)
          → ports.find_policy id ≡ some policy
          → ports.find_override id w ≡ some override
          → ports.read_status id w ≡ some state
          → (e : Result SchedulingError Expectation)
          → evaluate_with_override d zone policy override (Value.date (some (ports.instant w))) ≡ e
          → ◌≡◌ {A = Result ReconcileError Decision}
              (scheduled_result e >>= λ expectation. ok (decide expectation state))
              (ok (execute start))
          → StartDue d zone ports id w
      decided policy override state a b c (err x) k l = cc
      decided policy override state a b c (ok e) k l =
          let is_start : decide e state ≡ execute start = cc in
          let (open_now, is_stopped) = decide-start e state is_start in
          (policy, override, a, b, c ∙ ap some is_stopped, k ∙ ap ok open_now)

      from :
          (p : Option Policy)
          → ports.find_policy id ≡ p
          → (o : Option (Option Override)) → ports.find_override id w ≡ o
          → (s : Option ServiceState) → ports.read_status id w ≡ s
          → ◌≡◌ {A = Result ReconcileError Decision}
              (present p ReconcileError.service_not_found >>= λ policy.
                present o port_failed >>= λ override. present s port_failed >>= λ state.
                scheduled_result (
                  evaluate_with_override d zone policy override
                    (Value.date (some (ports.instant w))))
                >>= λ expectation. ok (decide expectation state))
              (ok (execute start))
          → StartDue d zone ports id w
      from none a o b s c k = cc
      from (some p) a none b s c k = cc
      from (some p) a (some o) b none c k = cc
      from (some p) a (some o) b (some s) c k = decided p o s a b c _ refl k
