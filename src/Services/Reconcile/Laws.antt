-- ===== src/Services/Reconcile/Laws.antt =====
-- What a reconciliation has done that carried out a start.
use atlas_manager.Base.{
  ◌≤◌, ◌≡◌, refl, sym, ap, ◌∙◌, inl, inr, Bool, true, false, List, [], Str, Option, some, none,
  Result, ok, err,
}
use atlas_manager.Base.Platform.{Dates, Zone}
use atlas_manager.Graph.{Entry, Graph, create_graph, dependencies, direct_dependencies_of}
use atlas_manager.Graph.Count.{count}
use atlas_manager.Services.State.{Service, Operation}
use atlas_manager.Services.Plan.{Snapshot, Input}
use atlas_manager.Services.Plan as Planner
use atlas_manager.Services.Plan.Candidates.{Reaches}
use atlas_manager.Services.Control.{
  Authority, scheduled, Thrown, ControlResult, ControlPorts, run_planned, run_captured, with_graph,
  find_snapshot, execute_control,
}
use atlas_manager.Services.Control.Laws.{ReadyBefore, ready_ids}
use atlas_manager.Services.Control.Trace.{Traced}
use atlas_manager.Services.Control.Started.{IsSafeStart, run_planned-IsSafeStart}
use atlas_manager.Services.Reconcile.Due.{StartDue, plan-StartDue}
use atlas_manager.Services.Reconcile.{
  start, stop, Decision, execute, no_operation, Occurrence, ReconcileError, ReconcileResult,
  executed, orchestration_failed, ReconcilePorts, plan_reconciliation, orchestrated, with_claim,
  with_decision, execute_occurrence,
}

module _ {W : Type 0} (ports : ControlPorts W) (es : List Entry) (g : Graph)
    (made : create_graph es ≡ ok g) (graphed : ports.graph ≡ some g) where
  -- A result that a start returns is safe.
  execute_control-IsSafeStart :
      (target : Str) (authority : Authority) (w w' : W) (r : ControlResult)
      → execute_control ports target Operation.start authority w ≡ (w', ok r)
      → IsSafeStart ports g target w w' r
  unfolding execute_control
  execute_control-IsSafeStart target authority w w' r h = from_found (ports.find_by_id target) h
    where
      from_captured :
          (c : Result Thrown (List (Str × Snapshot)))
          → run_captured ports g target Operation.start (ports.now w) c w ≡ (w', ok r)
          → IsSafeStart ports g target w w' r
      from_captured (err e) k = cc
      from_captured (ok entries) k =
          let i : Input = record {
            target_service_id = target;
            operation = Operation.start;
            graph = g;
            snapshots = find_snapshot entries;
          } in
          let ran = run_planned ports target Operation.start (ports.now w) (Planner.execute i) w in
          let same : ran.1 ≡ r = cc in
          let same_world : ran.0 ≡ w' = cc in
          rw (← same, ← same_world)
            (run_planned-IsSafeStart ports es i (ports.now w) w made refl (Planner.execute i) refl)

      from_found :
          (o : Option Service)
          → ◌≡◌ {A = W × Result Thrown ControlResult}
              (elim o [
                | none ↦ (w, err Thrown.service_not_found)
                | some s ↦ with_graph ports ports.graph target Operation.start authority w
              ])
              (w', ok r)
          → IsSafeStart ports g target w w' r
      from_found none k = cc
      from_found (some s) k =
          from_captured _
            (sym (ap (λ o. with_graph ports o target Operation.start authority w) graphed) ∙ k)

module _ {W : Type 0} (d : Dates) (zone : Zone) (ports : ReconcilePorts W) where
  orchestrated-executed :
      (y : W × Result Thrown ControlResult) (w' : W) (r : ControlResult)
      → orchestrated d zone ports y ≡ (w', ok (executed r))
      → (y.0 ≡ w') × (y.1 ≡ ok r) × (r.successful ≡ true)
  orchestrated-executed (w1, err e) w' r h = cc
  orchestrated-executed (w1, ok q) w' r h = by_success q.successful refl h
    where
      by_success :
          (b : Bool)
          → q.successful ≡ b
          → ◌≡◌ {A = W × Result ReconcileError ReconcileResult}
              (elim b [ true ↦ (w1, ok (executed q)) | false ↦ (w1, err orchestration_failed) ])
              (w', ok (executed r))
          → (w1 ≡ w')
            × (◌≡◌ {A = Result Thrown ControlResult} (ok q) (ok r))
            × (r.successful ≡ true)
      by_success true e k = let same : q ≡ r = cc in (cc, ap ok same, rw (← same) e)
      by_success false e k = cc

-- What a start has done that was carried out in a world that the claim has left.
abbrev pub Started : {W : Type 0} → ControlPorts W → Graph → Str → W → W → ControlResult → Type 0
Started ports g id w w' r =
    Traced ports r.steps w w'
    × ReadyBefore (direct_dependencies_of g) [] r.steps
    × ((v : Str) → Reaches g dependencies id v → 1 ≤ count v (ready_ids r.steps))

successful-Started :
    {W : Type 0} (ports : ControlPorts W) (g : Graph) (id : Str) (w w' : W) (r : ControlResult)
    → r.successful ≡ true
    → IsSafeStart ports g id w w' r
    → Started ports g id w w' r
successful-Started ports g id w w' r h (inl traced, ordered, reached, complete) =
    (traced, ordered, reached h)
successful-Started ports g id w w' r h (inr (same, failed, t, steps), ordered, reached, complete) =
    cc

-- A reconciliation on a created graph that carried out a start found the service stopped and expected to be
-- available at that instant, and its claim of the occurrence was new. The steps of its result are what was done
-- after the claim: a ready step is a wait that the waiter answered without an error. The service and all it depends
-- on were ready, and each service that was started had its dependencies ready before.
pub execute_occurrence-start :
    {W : Type 0} (d : Dates) (zone : Zone) (ports : ReconcilePorts W) (es : List Entry) (g : Graph)
    (id scheduled_for : Str) (w w' : W) (r : ControlResult)
    → create_graph es ≡ ok g
    → ports.orchestrate.graph ≡ some g
    → execute_occurrence d zone ports
        (record { service_id = id; operation = start; scheduled_for = scheduled_for })
        w
      ≡ (w', ok (executed r))
    → StartDue d zone ports id w
      × (claimed : W) × (ports.claim
            (record { service_id = id; operation = start; scheduled_for = scheduled_for })
            w
          ≡ (claimed, some true))
      × Started ports.orchestrate g id claimed w' r
unfolding execute_occurrence
execute_occurrence-start {W} d zone ports es g id scheduled_for w w' r made graphed h =
    let (due, done) = by_decision (plan_reconciliation d zone ports id w) refl h in
    (due, done.0, done.1, done.2)
  where
    o : Occurrence
    o = record { service_id = id; operation = start; scheduled_for = scheduled_for }

    Done : W × Option Bool → Type 0
    Done x =
        (claimed : W) × (x ≡ (claimed, some true)) × Started ports.orchestrate g id claimed w' r

    by_claim : (x : W × Option Bool) → with_claim d zone ports o x ≡ (w', ok (executed r)) → Done x
    by_claim (w1, none) k = cc
    by_claim (w1, some false) k = cc
    by_claim (w1, some true) k =
        let ran = execute_control ports.orchestrate id Operation.start scheduled w1 in
        let (same_world, same, successful) = orchestrated-executed d zone ports ran w' r k in
        let safe =
          execute_control-IsSafeStart ports.orchestrate es g made graphed id scheduled w1 w' r
            (λ i. (same_world i, same i)) in
        (w1, refl, successful-Started ports.orchestrate g id w1 w' r successful safe)

    by_decision :
        (q : Result ReconcileError Decision)
        → plan_reconciliation d zone ports id w ≡ q
        → with_decision d zone ports o q w ≡ (w', ok (executed r))
        → StartDue d zone ports id w × Done (ports.claim o w)
    by_decision (err e) a k = cc
    by_decision (ok no_operation) a k = cc
    by_decision (ok (execute stop)) a k = cc
    by_decision (ok (execute start)) a k =
        (plan-StartDue d zone ports id w a, by_claim (ports.claim o w) k)
