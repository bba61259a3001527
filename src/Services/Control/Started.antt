-- ===== src/Services/Control/Started.antt =====
-- The start of a service, from the request to the result.
use atlas_manager.Base.{
  ◌≤◌, ◌≡◌, ◌⊎◌, inl, inr, refl, ap, ◌∙◌, Bool, true, false, not, List, [], ◌∷◌, arith, Str, some,
  Result, ok, err, ◌>>◌, any,
}
use atlas_manager.Graph.Count.{count}
use atlas_manager.Graph.{Entry, Graph, create_graph, dependencies, direct_dependencies_of}
use atlas_manager.Services.State.{Service, Operation}
use atlas_manager.Services.Plan.{
  control, Snapshot, Plan, PlanError, Input, plan_start, plan_steps, candidates_of,
}
use atlas_manager.Services.Plan as Planner
use atlas_manager.Services.Plan.Returned.{execute-IsPlanned}
use atlas_manager.Services.Plan.Candidates.{Reaches, start_candidates}
use atlas_manager.Services.Plan.Start.{
  waited, Waited, plan_start-Starts, Starts-Waited, Starts-waited,
}
use atlas_manager.Services.Control.{
  Authority, FailureText, failed, ControlResult, ControlPorts, is_failed, run_plan, run_planned,
  run_captured, with_graph, gate, capture, find_snapshot, execute_control, sanitize, thrown_of,
}
use atlas_manager.Services.Control.Trace.{Traced, run_plan-Traced}
use atlas_manager.Services.Control.Laws.{
  was_started-failed, ReadyBefore, ready_ids, run_plan-Ran, Ran-ReadyBefore, Ran-ready_ids,
}

-- A start plan waits for each service it needs, and for the dependencies first.
plan-Waited :
    (es : List Entry) (i : Input) (p : Plan)
    → create_graph es ≡ ok i.graph
    → i.operation ≡ Operation.start
    → Planner.execute i ≡ ok p
    → Waited (direct_dependencies_of i.graph) [] p.steps
      × ((v : Str)
          → Reaches i.graph dependencies i.target_service_id v
          → 1 ≤ count v (waited p.steps))
unfolding plan_steps
plan-Waited es i p made op h =
    let planned = execute-IsPlanned i p h in
    let ids = candidates_of i.graph Operation.start i.target_service_id in
    let ran : plan_start i.snapshots ids ≡ ok p.steps = rw op at planned.planned in
    let starts = plan_start-Starts i.snapshots ids p.steps ran in
    let (sorted, exactly, different) = start_candidates es i.graph i.target_service_id made in
    (
      Starts-Waited i.snapshots (direct_dependencies_of i.graph) [] ids p.steps starts sorted,
      λ v r. rw (Starts-waited i.snapshots ids p.steps starts) ((exactly v).1 r),
    )

-- The planner refused: the target failed, and the world is as it was.
abbrev pub IsRefused : {W : Type 0} → Str → W → W → ControlResult → Type 0
IsRefused target w w' r =
    (w' ≡ w)
    × (r.successful ≡ false)
    × (t : FailureText) × (r.steps
        ≡ record {
          service_id = target;
          kind = control;
          operation = some Operation.start;
          outcome = failed t;
        }
          ∷ [])

-- What the result of a start promises: its steps are what happened, unless the planner refused; a service that was
-- started had its dependencies ready; and if no step failed the start is successful, and the target and all it
-- depends on were ready.
abbrev pub IsSafeStart :
    {W : Type 0} → ControlPorts W → Graph → Str → W → W → ControlResult → Type 0
IsSafeStart ports g target w w' r =
    (Traced ports r.steps w w' ⊎ IsRefused target w w' r)
    × ReadyBefore (direct_dependencies_of g) [] r.steps
    × (r.successful ≡ true
        → (v : Str) → Reaches g dependencies target v
        → 1 ≤ count v (ready_ids r.steps))
    × (any is_failed r.steps ≡ false → r.successful ≡ true)

not-any : (b : Bool) → not b ≡ true → b ≡ false
not-any true h = cc
not-any false h = refl

module _ {W : Type 0} (ports : ControlPorts W) where
  pub run_planned-IsSafeStart :
      (es : List Entry) (i : Input) (started_at : Str) (w : W)
      → create_graph es ≡ ok i.graph
      → i.operation ≡ Operation.start
      → (q : Result PlanError Plan) → Planner.execute i ≡ q
      → IsSafeStart ports i.graph i.target_service_id w
          (run_planned ports i.target_service_id i.operation started_at q w).0
          (run_planned ports i.target_service_id i.operation started_at q w).1
  run_planned-IsSafeStart es i started_at w made op (err e) h = (
    inr (refl, refl, sanitize (thrown_of e), rw op refl),
    (
      (λ k.
          absurd
            (ground (arith, was_started-failed (some i.operation) (sanitize (thrown_of e)), k))),
      tt,
    ),
    λ k. cc,
    λ k. cc,
  )
  run_planned-IsSafeStart es i started_at w made op (ok p) h =
      let (waits, reached) = plan-Waited es i p made op h in
      let done = (run_plan ports p.steps w).1 in
      let r = run_plan-Ran ports p.steps w in
      (
        inl (run_plan-Traced ports p.steps w),
        Ran-ReadyBefore (direct_dependencies_of i.graph) [] p.steps done r waits,
        λ k v n. rw (Ran-ready_ids p.steps done r (not-any (any is_failed done) k)) (reached v n),
        λ k. rw k refl,
      )

-- The start of a service of the catalog, on a created graph, returns a result if the availability of its
-- dependencies does not refuse it and the state of every candidate can be read, whatever the services do then.
-- Either the planner refused, the target failed and nothing was done, or the steps of the result are what was done:
-- a ready step is a wait that the waiter answered without an error, an executed one a control without an error, a
-- failed one an error of these, and the last. Each service that was started had all its dependencies ready before.
-- If the result is successful the target and all it depends on were ready, and it is if no step failed.
pub execute_control-start :
    {W : Type 0} (ports : ControlPorts W) (es : List Entry) (g : Graph) (target : Str)
    (authority : Authority) (w : W) (s : Service) (snapshots : List (Str × Snapshot))
    → create_graph es ≡ ok g
    → ports.graph ≡ some g
    → ports.find_by_id target ≡ some s
    → gate ports g target Operation.start authority ≡ ok tt
    → capture ports Operation.start (candidates_of g Operation.start target) w ≡ ok snapshots
    → (w' : W) × (r : ControlResult) × (execute_control ports target Operation.start authority w
        ≡ (w', ok r))
      × IsSafeStart ports g target w w' r
unfolding execute_control
execute_control-start ports es g target authority w s snapshots made graphed found open_gate
      captured =
    let i : Input = record {
      target_service_id = target;
      operation = Operation.start;
      graph = g;
      snapshots = find_snapshot snapshots;
    } in
    let ran = run_planned ports target Operation.start (ports.now w) (Planner.execute i) w in
    (
      ran.0,
      ran.1,
      rw (found, execute_control)
          (ap (λ o. with_graph ports o target Operation.start authority w) graphed
            ∙ ap (λ c. run_captured ports g target Operation.start (ports.now w) c w)
                (ap
                    (λ a.
                      a >> capture ports Operation.start (candidates_of g Operation.start target) w)
                    open_gate
                  ∙ captured)),
      run_planned-IsSafeStart ports es i (ports.now w) w made refl (Planner.execute i) refl,
    )
