-- ===== src/Services/Reconcile.antt =====
-- The reconciliation of a service with its availability: plan-registered-service-availability-reconciliation.ts,
-- domain/service-availability-reconciliation-decision.ts, and
-- execute-registered-service-availability-reconciliation-occurrence.ts, which runs the orchestrated control.
pub mod Due
pub mod Laws
pub mod Examples
use atlas_manager.Base.{Bool, true, false, Str, Option, some, none, Result, ok, err, ◌>>=◌}
use atlas_manager.Base.Int.{ℤ}
use atlas_manager.Base.Values.{Value}
use atlas_manager.Base.Platform.{Dates, Zone}
use atlas_manager.Scheduling.Errors.{SchedulingError}
use atlas_manager.Scheduling.Policy.{Policy}
use atlas_manager.Scheduling.Override.{Override, evaluate_with_override}
use atlas_manager.Scheduling.Evaluator.{Expectation, available, unavailable, manual, disabled}
use atlas_manager.Services.State.{ServiceState, Operation}
use atlas_manager.Services.Control.{scheduled, Thrown, ControlResult, ControlPorts, execute_control}

-- An operation of a reconciliation.
pub data Reconciling : Type 0 where
  start stop : Reconciling

abbrev pub control_operation : Reconciling → Operation
control_operation start = Operation.start
control_operation stop = Operation.stop

abbrev pub is_same_operation : Reconciling → Reconciling → Bool
is_same_operation start start = true
is_same_operation stop stop = true
is_same_operation _ _ = false

pub data Decision : Type 0 where
  execute : Reconciling → Decision
  no_operation : Decision

-- `decideServiceAvailabilityReconciliation` on an expectation and a state of the lists.
abbrev pub decide : Expectation → ServiceState → Decision
decide available ServiceState.stopped = execute start
decide unavailable ServiceState.running = execute stop
decide _ _ = no_operation

pub record Occurrence : Type 0 where
  pub service_id : Str
  pub operation : Reconciling
  pub scheduled_for : Str

-- `port_failed` is the error of a collaborator.
pub data ReconcileError : Type 0 where
  service_not_found orchestration_failed port_failed : ReconcileError
  scheduling : SchedulingError → ReconcileError
  control : Thrown → ReconcileError

pub data ReconcileResult : Type 0 where
  none_needed duplicate : ReconcileResult
  executed : ControlResult → ReconcileResult

-- The collaborators, on the states `W` of the world: `none` is a call that throws. A claim that is `true` is new.
pub record ReconcilePorts (W : Type 0) : Type 0 where
  pub find_policy : Str → Option Policy
  pub find_override : Str → W → Option (Option Override)
  pub read_status : Str → W → Option ServiceState
  pub instant : W → ℤ
  pub claim : Occurrence → W → W × Option Bool
  pub orchestrate : ControlPorts W

abbrev pub scheduled_result : Result SchedulingError Expectation → Result ReconcileError Expectation
scheduled_result (ok e) = ok e
scheduled_result (err e) = err (scheduling e)

abbrev pub present : {A : Type 0} → Option A → ReconcileError → Result ReconcileError A
present none e = err e
present (some a) e = ok a

module _ {W : Type 0} (d : Dates) (zone : Zone) (ports : ReconcilePorts W) where
  -- `PlanRegisteredServiceAvailabilityReconciliation.execute`.
  unfoldable pub plan_reconciliation : Str → W → Result ReconcileError Decision
  plan_reconciliation id w = do
    policy ← present (ports.find_policy id) service_not_found
    override ← present (ports.find_override id w) port_failed
    state ← present (ports.read_status id w) port_failed
    expectation ←
        scheduled_result
          (evaluate_with_override d zone policy override (Value.date (some (ports.instant w))))
    ok (decide expectation state)

  abbrev pub orchestrated :
      W × Result Thrown ControlResult → W × Result ReconcileError ReconcileResult
  orchestrated (w, err e) = (w, err (control e))
  orchestrated (w, ok r) = elim r.successful [
    | true ↦ (w, ok (executed r))
    | false ↦ (w, err orchestration_failed)
  ]

  abbrev pub with_claim : Occurrence → W × Option Bool → W × Result ReconcileError ReconcileResult
  with_claim o (w, none) = (w, err port_failed)
  with_claim o (w, some false) = (w, ok duplicate)
  with_claim o (w, some true) =
      orchestrated
        (execute_control ports.orchestrate o.service_id (control_operation o.operation) scheduled w)

  abbrev pub with_decision :
      Occurrence → Result ReconcileError Decision → W → W × Result ReconcileError ReconcileResult
  with_decision o (err e) w = (w, err e)
  with_decision o (ok no_operation) w = (w, ok none_needed)
  with_decision o (ok (execute op)) w = elim (is_same_operation op o.operation) [
    | false ↦ (w, ok none_needed)
    | true ↦ with_claim o (ports.claim o w)
  ]

  unfoldable pub execute_occurrence : Occurrence → W → W × Result ReconcileError ReconcileResult
  execute_occurrence o w = with_decision o (plan_reconciliation o.service_id w) w
