-- ===== src/Services/Plan/Restarted.antt =====
-- When a restart plan is returned, and which services it stops and starts.
use atlas_manager.Base.{
  ◌++◌, ◌≤◌, ◌≡◌, ◌≢◌, ◌↔◌, refl, ap, inl, inr, true, List, [], ◌∷◌, arith, Str, Option, some, ok,
  Bool-cases, includes, All, reverse, if◌then◌else◌,
}
use atlas_manager.Graph.Count.{count, count_self, not-includes→count, includes→count}
use atlas_manager.Graph.Kahn.Result.{Different}
use atlas_manager.Graph.Closure.Laws.{Reach}
use atlas_manager.Graph.Order.{InOrder, count-reverse}
use atlas_manager.Graph.Sorted.{Needed}
use atlas_manager.Graph.Created.{created-reverse, created-closure, dependents-rank, Reach-rank}
use atlas_manager.Graph.{
  Entry, Graph, create_graph, dependents, neighbors, direct_dependents_of, compute_closure,
  topological_sort,
}
use atlas_manager.Services.State.{Operation}
use atlas_manager.Services.Plan.{
  Snapshot, has_service, candidates_of, control_step, wait_step, stops_of, starts_of, restart_steps,
  plan_restart, plan_steps, execute,
}
use atlas_manager.Services.Plan.Keys.{keys-Different, validate-accepts, is_plannable}
use atlas_manager.Services.Plan.Returned.{execute-returns, all_observed}
use atlas_manager.Services.Plan.Candidates.{Reaches, Reach-trans, restart_candidates}
use atlas_manager.Services.Plan.Start.{is_plannable-some}
use atlas_manager.Services.Plan.Restart.{
  is_active_at, active_of-count, Supports, All-append, restart_steps-Pairwise,
}

-- The services that a restart of the target stops and starts again.
abbrev pub Restarted : Graph → (Str → Option Snapshot) → Str → Str → Type 0
Restarted g snapshots target v =
    (a : Str) × Reach (neighbors g dependents) target a
    × (is_active_at snapshots a ≡ true)
    × Reaches g dependents a v

module _ (snapshots : Str → Option Snapshot) where
  stops_of-supported :
      (ids : List Str)
      → ((v : Str) → 1 ≤ count v ids → Supports snapshots Operation.stop v)
      → All (λ s. is_plannable snapshots s ≡ true) (stops_of ids)
  stops_of-supported [] h = tt
  stops_of-supported (id ∷ ids) h =
      let (s, found, has) = h id (count_self id ids) in
      (
        is_plannable-some snapshots (control_step id Operation.stop) s found has,
        stops_of-supported ids (λ v k. h v (omega arith)),
      )

  starts_of-supported :
      (ids : List Str)
      → ((v : Str) → 1 ≤ count v ids → Supports snapshots Operation.start v)
      → All (λ s. is_plannable snapshots s ≡ true) (starts_of ids)
  starts_of-supported [] h = tt
  starts_of-supported (id ∷ ids) h =
      let (s, found, has) = h id (count_self id ids) in
      (
        is_plannable-some snapshots (control_step id Operation.start) s found has,
        (
          is_plannable-some snapshots (wait_step id) s found refl,
          starts_of-supported ids (λ v k. h v (omega arith)),
        ),
      )

module _ (es : List Entry) (g : Graph) (target : Str) (snapshots : Str → Option Snapshot)
    (made : create_graph es ≡ ok g) where
  -- No service depends on itself.
  above_target : {v : Str} → Reach (neighbors g dependents) target v → target ≢ v
  above_target {v} r e =
      let (rank, above) = dependents-rank es g made in
      let higher = Reach-rank (direct_dependents_of g) rank above r in
      absurd (omega (arith, higher, ap rank e))

  Needed-Restarted :
      (active : List Str) (v : Str)
      → ((w : Str)
          → count w active ≡ (
              if is_active_at snapshots w
              then count w (compute_closure g dependents target)
              else 0))
      → Needed g dependents active v ↔ Restarted g snapshots target v
  Needed-Restarted active v counts = (to, from)
    where
      member :
          (w : Str)
          → 1 ≤ count w active
          → Reach (neighbors g dependents) target w × (is_active_at snapshots w ≡ true)
      member w h = (
        ((created-closure es g dependents target w made).0 (ground (arith, counts w))).0,
        ground (arith, counts w),
      )

      member_back :
          (w : Str)
          → Reach (neighbors g dependents) target w
          → is_active_at snapshots w ≡ true
          → 1 ≤ count w active
      member_back w r e =
          let inside = (created-closure es g dependents target w made).1 (r, above_target r) in
          ground (arith, counts w, inside)

      to : Needed g dependents active v → Restarted g snapshots target v
      to (inl h) = (v, (member v h).0, (member v h).1, inl refl)
      to (inr (start, h, r)) = (start, (member start h).0, (member start h).1, inr r)

      from : Restarted g snapshots target v → Needed g dependents active v
      from (a, r, e, inl same) = inl (rw (← same) (member_back a r e))
      from (a, r, e, inr s) = inr (a, member_back a r e, s)

  module _
      (observed : (v : Str)
        → Reaches g dependents target v
        → (s : Snapshot) × (snapshots v ≡ some s)) where
    -- The order in which the services are stopped.
    restart_order :
        (order : List Str) × (plan_restart g snapshots target ≡ ok (restart_steps target order))
        × InOrder (direct_dependents_of g) [] order
        × ((v : Str) → (1 ≤ count v order) ↔ Restarted g snapshots target v)
        × Different order
    unfolding plan_restart
    restart_order =
        let (active, found, counts) =
          active_of-count snapshots (compute_closure g dependents target)
            (λ v h. observed v (inr ((created-closure es g dependents target v made).0 h).0)) in
        let (sorted, exactly, different) = created-reverse es g active made in
        (
          topological_sort g dependents active,
          rw found refl,
          sorted,
          λ v. (
            λ h. (Needed-Restarted active v counts).0 ((exactly v).0 h),
            λ h. (exactly v).1 ((Needed-Restarted active v counts).1 h),
          ),
          different,
        )

-- On a created graph, the plan that restarts a service is returned if it supports the restart and all that depend
-- on it support stop and start: it stops some services, restarts the target, and starts the same services in
-- reverse order. These are the dependents that are not stopped and all that depend on one of them, whether these
-- run or not; each once, and stopped after its dependents.
pub execute-restart :
    (es : List Entry) (g : Graph) (target : Str) (snapshots : Str → Option Snapshot)
    → create_graph es ≡ ok g
    → has_service g target ≡ true
    → Supports snapshots Operation.restart target
    → ((v : Str)
        → Reach (neighbors g dependents) target v
        → Supports snapshots Operation.stop v × Supports snapshots Operation.start v)
    → (order : List Str) × (execute (record {
      target_service_id = target;
      operation = Operation.restart;
      graph = g;
      snapshots = snapshots;
    })
        ≡ ok (record {
          target_service_id = target;
          requested_operation = Operation.restart;
          steps =
              stops_of order
              ++ (control_step target Operation.restart
                  ∷ wait_step target
                  ∷ starts_of (reverse order));
        }))
      × InOrder (direct_dependents_of g) [] order
      × ((v : Str) → (1 ≤ count v order) ↔ Restarted g snapshots target v)
      × Different order
unfolding plan_steps
execute-restart es g target snapshots made known restartable others =
    let (order, planned, sorted, exactly, different) =
      restart_order es g target snapshots made observed in
    let reached : (v : Str) → 1 ≤ count v order → Reach (neighbors g dependents) target v =
      λ v h. Restarted-Reach ((exactly v).0 h) in
    let itself = restartable in
    let supported =
      All-append (λ s s'. Unit) (λ s. is_plannable snapshots s ≡ true) (stops_of order)
        (control_step target Operation.restart ∷ wait_step target ∷ starts_of (reverse order))
        (stops_of-supported snapshots order (λ v h. (others v (reached v h)).0))
        (
          is_plannable-some snapshots (control_step target Operation.restart) itself.0 itself.1
              itself.2,
          (
            is_plannable-some snapshots (wait_step target) itself.0 itself.1 refl,
            starts_of-supported snapshots (reverse order)
                (λ v h. (others v (reached v (omega (arith, h, count-reverse v order)))).1),
          ),
        ) in
    let away : count target order ≡ 0 = elim (Bool-cases (includes order target)) [
      | inl e ↦ absurd (
          above_target es g target snapshots made (reached target (includes→count target order e))
            refl)
      | inr e ↦ not-includes→count target order e
    ] in
    (
      order,
      execute-returns
          (record {
            target_service_id = target;
            operation = Operation.restart;
            graph = g;
            snapshots = snapshots;
          })
          (restart_steps target order)
          (record {
            known = known;
            observed =
                all_observed snapshots (candidates_of g Operation.restart target)
                  (λ v h. observed v (((restart_candidates es g target made).1 v).0 h));
            planned = planned;
            valid =
                validate-accepts snapshots [] (restart_steps target order)
                  (λ k. omega (
                    arith,
                    keys-Different (restart_steps target order)
                        (restart_steps-Pairwise target order different away) k,
                  ))
                  supported;
          }),
      sorted,
      exactly,
      different,
    )
  where
    observed : (v : Str) → Reaches g dependents target v → (s : Snapshot) × (snapshots v ≡ some s)
    observed v (inl e) = rw (← e) (restartable.0, restartable.1)
    observed v (inr r) = ((others v r).0.0, (others v r).0.1)

    Restarted-Reach :
        {v : Str} → Restarted g snapshots target v → Reach (neighbors g dependents) target v
    Restarted-Reach (a, r, e, inl same) = rw (← same) r
    Restarted-Reach (a, r, e, inr s) = Reach-trans (neighbors g dependents) r s
