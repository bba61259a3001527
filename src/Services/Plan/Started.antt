-- ===== src/Services/Plan/Started.antt =====
-- What a start plan says of each service, and when there is one.
use atlas_manager.Base.{
  ◌≤◌, ◌≡◌, ◌↔◌, refl, inl, inr, Bool, true, false, List, [], arith, Str, str_eq, str_eq→eq, Option,
  some, none, ok, Bool-cases, All, if◌then◌else◌,
}
use atlas_manager.Graph.Count.{count, member-cons}
use atlas_manager.Graph.{Entry, Graph, create_graph, dependencies, direct_dependencies_of}
use atlas_manager.Services.State.{ServiceState, Operation}
use atlas_manager.Services.Plan.{
  Step, Snapshot, Input, Plan, has_service, plan_start, candidates_of, control_step, plan_steps,
  execute, is_supported,
}
use atlas_manager.Services.Plan.Keys.{
  keys-Different, validate-accepts, validate-supported, is_plannable,
}
use atlas_manager.Services.Plan.Returned.{execute-returns, execute-IsPlanned, all_observed}
use atlas_manager.Services.Plan.Candidates.{Reaches, start_candidates}
use atlas_manager.Services.Plan.Start.{
  waited, started, Waited, Starts, no_more, waits, starts, Startable, Starts-Waited, Starts-waited,
  Starts-Pairwise, plan_start-Starts, plan_start-returns,
}

abbrev pub is_stopped : Option Snapshot → Bool
is_stopped none = false
is_stopped (some s) = elim s.state [
  | ServiceState.stopped ↦ true
  | ServiceState.running ↦ false
  | ServiceState.failed ↦ false
  | ServiceState.unknown ↦ false
]

module _ (snapshots : Str → Option Snapshot) where
  is_stopped-stopped :
      (v : Str) (s : Snapshot)
      → snapshots v ≡ some s
      → s.state ≡ ServiceState.stopped
      → is_stopped (snapshots v) ≡ true
  is_stopped-stopped v s e e' = rw e (rw e' refl)

  is_stopped-running :
      (v : Str) (s : Snapshot)
      → snapshots v ≡ some s
      → s.state ≡ ServiceState.running
      → is_stopped (snapshots v) ≡ false
  is_stopped-running v s e e' = rw e (rw e' refl)

  count-started :
      (ids : List Str) (steps : List Step) (v : Str)
      → Starts snapshots ids steps
      → count v (started steps) ≡ (if is_stopped (snapshots v) then count v ids else 0)
  count-started _ _ v no_more = elim (Bool-cases (is_stopped (snapshots v))) [
    | inl e ↦ rw e refl
    | inr e ↦ rw e refl
  ]
  count-started _ _ v (waits id ids s steps e e' r) = elim (Bool-cases (str_eq id v)) [
    | inl same ↦
        let idle : is_stopped (snapshots v) ≡ false =
          rw (← str_eq→eq id v same) (is_stopped-running id s e e') in
        ground (arith, count-started ids steps v r, idle)
    | inr other ↦ ground (arith, count-started ids steps v r)
  ]
  count-started _ _ v (starts id ids s steps e e' r) = elim (Bool-cases (str_eq id v)) [
    | inl same ↦
        let idle : is_stopped (snapshots v) ≡ true =
          rw (← str_eq→eq id v same) (is_stopped-stopped id s e e') in
        ground (arith, count-started ids steps v r, idle)
    | inr other ↦ ground (arith, count-started ids steps v r)
  ]

  Starts-Startable :
      (ids : List Str) (steps : List Step) (v : Str)
      → Starts snapshots ids steps
      → All (λ s. is_plannable snapshots s ≡ true) steps
      → 1 ≤ count v ids
      → Startable snapshots v
  Starts-Startable _ _ v no_more a h = absurd (omega arith)
  Starts-Startable _ _ v (waits id ids s steps e e' r) a h = elim (member-cons v id ids h) [
    | inl same ↦ rw (← same) (s, e, inl e')
    | inr later ↦ Starts-Startable ids steps v r a.1 later
  ]
  Starts-Startable _ _ v (starts id ids s steps e e' r) a h = elim (member-cons v id ids h) [
    | inl same ↦ rw (← same) (s, e, inr (e', supported a.0))
    | inr later ↦ Starts-Startable ids steps v r a.1.1 later
  ]
    where
      supported :
          is_plannable snapshots (control_step id Operation.start) ≡ true
          → is_supported (some Operation.start) s ≡ true
      supported k = rw (e, is_plannable) at k

-- On a created graph, the plan that starts a service is returned if the service and all it depends on run or can
-- be started: the plan waits for exactly these services, once each, starts exactly the stopped ones among them,
-- and starts a service only after it has waited for all its dependencies.
pub execute-start :
    (es : List Entry) (g : Graph) (target : Str) (snapshots : Str → Option Snapshot)
    → create_graph es ≡ ok g
    → has_service g target ≡ true
    → ((v : Str) → Reaches g dependencies target v → Startable snapshots v)
    → (steps : List Step) × (execute (record {
      target_service_id = target;
      operation = Operation.start;
      graph = g;
      snapshots = snapshots;
    })
        ≡ ok (record {
          target_service_id = target;
          requested_operation = Operation.start;
          steps = steps;
        }))
      × Waited (direct_dependencies_of g) [] steps
      × ((v : Str) → (1 ≤ count v (waited steps)) ↔ Reaches g dependencies target v)
      × ((v : Str) → count v (waited steps) ≤ 1)
      × ((v : Str)
          → count v (started steps)
            ≡ (if is_stopped (snapshots v) then count v (waited steps) else 0))
unfolding plan_steps
execute-start es g target snapshots made known startable =
    let (sorted, exactly, different) = start_candidates es g target made in
    let ids = candidates_of g Operation.start target in
    let each : (v : Str) → 1 ≤ count v ids → Startable snapshots v =
      λ v h. startable v ((exactly v).0 h) in
    let (steps, planned, r, supported) = plan_start-returns snapshots ids each in
    let same = Starts-waited snapshots ids steps r in
    (
      steps,
      execute-returns
          (record {
            target_service_id = target;
            operation = Operation.start;
            graph = g;
            snapshots = snapshots;
          })
          steps
          (record {
            known = known;
            observed = all_observed snapshots ids (λ v h. ((each v h).0, (each v h).1));
            planned = planned;
            valid =
                validate-accepts snapshots [] steps
                  (λ k. omega (
                    arith,
                    keys-Different steps (Starts-Pairwise snapshots ids steps r different) k,
                  ))
                  supported;
          }),
      Starts-Waited snapshots (direct_dependencies_of g) [] ids steps r sorted,
      rw same exactly,
      rw same different,
      λ v. rw same (count-started snapshots ids steps v r),
    )

-- A plan that starts a service is returned only if the service and all it depends on run, or are stopped and
-- support the start; the graph is created.
pub execute-start_only :
    (es : List Entry) (i : Input) (p : Plan)
    → create_graph es ≡ ok i.graph
    → i.operation ≡ Operation.start
    → execute i ≡ ok p
    → (v : Str) → Reaches i.graph dependencies i.target_service_id v
    → Startable i.snapshots v
unfolding plan_steps
execute-start_only es i p made op h v r =
    let planned = execute-IsPlanned i p h in
    let ids = candidates_of i.graph Operation.start i.target_service_id in
    let ran : plan_start i.snapshots ids ≡ ok p.steps = rw op at planned.planned in
    Starts-Startable i.snapshots ids p.steps v (plan_start-Starts i.snapshots ids p.steps ran)
      (validate-supported i.snapshots [] p.steps planned.valid)
      (((start_candidates es i.graph i.target_service_id made).1 v).1 r)
