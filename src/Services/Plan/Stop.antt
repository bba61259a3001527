-- ===== src/Services/Plan/Stop.antt =====
-- The plan that stops a service.
use atlas_manager.Base.{
  ◌≤◌, ◌≡◌, ◌≢◌, ◌↔◌, refl, ◌⊎◌, inl, inr, true, List, [], ◌∷◌, arith, Str, Option, some, none, ok,
  includes, All, Pairwise,
}
use atlas_manager.Graph.Count.{count, count_self}
use atlas_manager.Graph.Kahn.Result.{Different}
use atlas_manager.Graph.Order.{InOrder}
use atlas_manager.Graph.{Entry, Graph, create_graph, dependents, direct_dependents_of}
use atlas_manager.Services.State.{ServiceState, Operation, operation_name}
use atlas_manager.Services.Plan.{
  control, Step, Snapshot, has_service, candidates_of, stop_step, plan_stop, plan_steps, execute,
}
use atlas_manager.Services.Plan.Keys.{
  keys-Different, validate-accepts, is_plannable, differ, absent, fresh,
}
use atlas_manager.Services.Plan.Returned.{execute-returns, all_observed}
use atlas_manager.Services.Plan.Candidates.{Reaches, stop_candidates}
use atlas_manager.Services.Plan.Start.{is_plannable-some}

-- The steps of a list of services: one for each, without an operation if the service is stopped.
pub data Stops (snapshots : Str → Option Snapshot) : List Str → List Step → Type 0 where
  no_more : Stops snapshots [] []
  skips :
      (id : Str) (ids : List Str) (s : Snapshot) (steps : List Step)
      → snapshots id ≡ some s
      → s.state ≡ ServiceState.stopped
      → Stops snapshots ids steps
      → Stops snapshots
          (id ∷ ids)
          (record { kind = control; service_id = id; operation = none } ∷ steps)
  stops :
      (id : Str) (ids : List Str) (s : Snapshot) (steps : List Step)
      → snapshots id ≡ some s
      → s.state ≢ ServiceState.stopped
      → Stops snapshots ids steps
      → Stops snapshots
          (id ∷ ids)
          (record { kind = control; service_id = id; operation = some Operation.stop } ∷ steps)

module _ (snapshots : Str → Option Snapshot) where
  -- The service is stopped, or supports the stop.
  abbrev pub Stoppable : Str → Type 0
  Stoppable v =
      (s : Snapshot) × (snapshots v ≡ some s)
      × ((s.state ≡ ServiceState.stopped)
          ⊎ (includes s.supported_operations (operation_name Operation.stop) ≡ true))

  plan_stop-cons :
      (id : Str) (ids : List Str) (now : Step) (later : List Step)
      → stop_step id (snapshots id) ≡ ok now
      → plan_stop snapshots ids ≡ ok later
      → plan_stop snapshots (id ∷ ids) ≡ ok (now ∷ later)
  unfolding plan_stop
  plan_stop-cons id ids now later e e' = rw (e, e') refl

  stop_step-cases :
      (id : Str) (s : Snapshot)
      → snapshots id ≡ some s
      → ((s.state ≡ ServiceState.stopped)
          × (stop_step id (snapshots id)
              ≡ ok (record { kind = control; service_id = id; operation = none })))
        ⊎ ((s.state ≢ ServiceState.stopped)
            × (stop_step id (snapshots id)
                ≡ ok (record { kind = control; service_id = id; operation = some Operation.stop })))
  stop_step-cases id s e = by_state s.state refl
    where
      by_state :
          (t : ServiceState)
          → s.state ≡ t
          → ((s.state ≡ ServiceState.stopped)
              × (stop_step id (snapshots id)
                  ≡ ok (record { kind = control; service_id = id; operation = none })))
            ⊎ ((s.state ≢ ServiceState.stopped)
                × (stop_step id (snapshots id)
                    ≡ ok (record {
                      kind = control;
                      service_id = id;
                      operation = some Operation.stop;
                    })))
      by_state ServiceState.stopped e' = inl (e', rw e (rw e' refl))
      by_state ServiceState.running e' = inr (λ k. cc, rw e (rw e' refl))
      by_state ServiceState.failed e' = inr (λ k. cc, rw e (rw e' refl))
      by_state ServiceState.unknown e' = inr (λ k. cc, rw e (rw e' refl))

  plan_stop-returns :
      (ids : List Str)
      → ((v : Str) → 1 ≤ count v ids → Stoppable v)
      → (steps : List Step) × (plan_stop snapshots ids ≡ ok steps)
        × Stops snapshots ids steps
        × All (λ s. is_plannable snapshots s ≡ true) steps
  unfolding plan_stop
  plan_stop-returns [] h = ([], refl, no_more, tt)
  plan_stop-returns (id ∷ ids) h =
      let (later, e, r, ok_later) = plan_stop-returns ids (λ v k. h v (omega arith)) in
      let (s, found, state) = h id (count_self id ids) in
      elim (stop_step-cases id s found) [
        | inl (stopped, now) ↦ (
          record { kind = control; service_id = id; operation = none } ∷ later,
          plan_stop-cons id ids (record { kind = control; service_id = id; operation = none }) later
              now e,
          skips id ids s later found stopped r,
          (
            is_plannable-some snapshots
                (record { kind = control; service_id = id; operation = none }) s found refl,
            ok_later,
          ),
        )
        | inr (active, now) ↦ (
          record { kind = control; service_id = id; operation = some Operation.stop } ∷ later,
          plan_stop-cons id ids
              (record { kind = control; service_id = id; operation = some Operation.stop }) later
              now e,
          stops id ids s later found active r,
          (
            is_plannable-some snapshots
                (record { kind = control; service_id = id; operation = some Operation.stop }) s
                found (elim state [ inl stopped ↦ absurd (active stopped) | inr has ↦ has ]),
            ok_later,
          ),
        )
      ]

  Stops-apart :
      (v : Str) (ids : List Str) (steps : List Step)
      → Stops snapshots ids steps
      → count v ids ≡ 0
      → All (λ t. v ≢ t.service_id) steps
  Stops-apart v _ _ no_more h = tt
  Stops-apart v _ _ (skips id ids s steps e e' r) h =
      (absent v id ids h, Stops-apart v ids steps r (omega arith))
  Stops-apart v _ _ (stops id ids s steps e e' r) h =
      (absent v id ids h, Stops-apart v ids steps r (omega arith))

  Stops-Pairwise :
      (ids : List Str) (steps : List Step)
      → Stops snapshots ids steps
      → Different ids
      → Pairwise (λ s t. s ≢ t) steps
  Stops-Pairwise _ _ no_more u = tt
  Stops-Pairwise _ _ (skips id ids s steps e e' r) u = (
    differ (record { kind = control; service_id = id; operation = none }) steps
        (Stops-apart id ids steps r (fresh id ids u)),
    Stops-Pairwise ids steps r (λ v. omega (arith, u v)),
  )
  Stops-Pairwise _ _ (stops id ids s steps e e' r) u = (
    differ (record { kind = control; service_id = id; operation = some Operation.stop }) steps
        (Stops-apart id ids steps r (fresh id ids u)),
    Stops-Pairwise ids steps r (λ v. omega (arith, u v)),
  )

-- On a created graph, the plan that stops a service is returned if it and all that depend on it are stopped or
-- support the stop: it has one step for each of these services, after the steps of the dependents, and the step
-- stops the service exactly if it is not stopped.
pub execute-stop :
    (es : List Entry) (g : Graph) (target : Str) (snapshots : Str → Option Snapshot)
    → create_graph es ≡ ok g
    → has_service g target ≡ true
    → ((v : Str) → Reaches g dependents target v → Stoppable snapshots v)
    → (order : List Str) × (steps : List Step) × (execute (record {
      target_service_id = target;
      operation = Operation.stop;
      graph = g;
      snapshots = snapshots;
    })
        ≡ ok (record {
          target_service_id = target;
          requested_operation = Operation.stop;
          steps = steps;
        }))
      × Stops snapshots order steps
      × InOrder (direct_dependents_of g) [] order
      × ((v : Str) → (1 ≤ count v order) ↔ Reaches g dependents target v)
      × Different order
unfolding plan_steps
execute-stop es g target snapshots made known stoppable =
    let (sorted, exactly, different) = stop_candidates es g target made in
    let ids = candidates_of g Operation.stop target in
    let each : (v : Str) → 1 ≤ count v ids → Stoppable snapshots v =
      λ v h. stoppable v ((exactly v).0 h) in
    let (steps, planned, r, supported) = plan_stop-returns snapshots ids each in
    (
      ids,
      steps,
      execute-returns
          (record {
            target_service_id = target;
            operation = Operation.stop;
            graph = g;
            snapshots = snapshots;
          })
          steps
          (record {
            known = known;
            observed = all_observed snapshots ids (λ v h. ((each v h).0, (each v h).1));
            planned = planned;
            valid =
                validate-accepts snapshots [] steps
                  (λ k. omega (
                    arith,
                    keys-Different steps (Stops-Pairwise snapshots ids steps r different) k,
                  ))
                  supported;
          }),
      r,
      sorted,
      exactly,
      different,
    )
