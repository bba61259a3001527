-- ===== src/Services/Plan/Returned.antt =====
-- When `execute` returns a plan.
use atlas_manager.Base.{
  ◌≡◌, refl, Bool, true, false, not, List, [], Str, Result, ok, err, ◌>>=◌, ◌>>◌, throw_if, all,
  ◌≤◌, arith, ◌∷◌, Option, some,
}
use atlas_manager.Graph.Count.{count, count_self}
use atlas_manager.Services.Plan.{
  Step, Snapshot, PlanError, plan_invalid, Input, Plan, has_service, has_snapshot, candidates_of,
  plan_steps, validate_operations, execute,
}

-- A plan is returned exactly if the target is a service, every candidate has a snapshot, the steps are planned
-- and pass the check.
pub record IsPlanned (i : Input) (steps : List Step) : Type 0 where
  pub known : has_service i.graph i.target_service_id ≡ true
  pub observed :
      all (has_snapshot i.snapshots) (candidates_of i.graph i.operation i.target_service_id) ≡ true
  pub planned : plan_steps i ≡ ok steps
  pub valid : validate_operations i.snapshots [] steps ≡ ok tt

pub execute-returns :
    (i : Input) (steps : List Step)
    → IsPlanned i steps
    → execute i
      ≡ ok (record {
        target_service_id = i.target_service_id;
        requested_operation = i.operation;
        steps = steps;
      })
unfolding execute
execute-returns i steps p = rw (p.known, p.observed, p.planned, p.valid) refl

pub execute-IsPlanned : (i : Input) (p : Plan) → execute i ≡ ok p → IsPlanned i p.steps
unfolding execute
execute-IsPlanned i p h =
    from (has_service i.graph i.target_service_id) refl
      (all (has_snapshot i.snapshots) (candidates_of i.graph i.operation i.target_service_id)) refl
      (plan_steps i) refl h
  where
    checked :
        (steps : List Step)
        → plan_steps i ≡ ok steps
        → (r : Result PlanError (Unit {0})) → validate_operations i.snapshots [] steps ≡ r
        → ◌≡◌ {A = Result PlanError Plan}
            (r
              >> ok (record {
                target_service_id = i.target_service_id;
                requested_operation = i.operation;
                steps = steps;
              }))
            (ok p)
        → (plan_steps i ≡ ok p.steps) × (validate_operations i.snapshots [] p.steps ≡ ok tt)
    checked steps e (ok u) e' k = let same : steps ≡ p.steps = cc in rw (← same) (e, e')
    checked steps e (err x) e' k = cc

    from :
        (a : Bool)
        → has_service i.graph i.target_service_id ≡ a
        → (b : Bool)
        → all (has_snapshot i.snapshots) (candidates_of i.graph i.operation i.target_service_id) ≡ b
        → (r : Result PlanError (List Step)) → plan_steps i ≡ r
        → ◌≡◌ {A = Result PlanError Plan}
            (throw_if (not a) plan_invalid
              >> (throw_if (not b) plan_invalid
                  >> (r >>= λ steps.
                      validate_operations i.snapshots [] steps
                      >> ok (record {
                        target_service_id = i.target_service_id;
                        requested_operation = i.operation;
                        steps = steps;
                      }))))
            (ok p)
        → IsPlanned i p.steps
    from false e b e' r e'' k = cc
    from true e false e' r e'' k = cc
    from true e true e' (err x) e'' k = cc
    from true e true e' (ok steps) e'' k =
        let (planned, valid) =
          checked steps e'' (validate_operations i.snapshots [] steps) refl k in
        record { known = e; observed = e'; planned = planned; valid = valid }

module _ (snapshots : Str → Option Snapshot) where
  pub all_observed :
      (ids : List Str)
      → ((v : Str) → 1 ≤ count v ids → (s : Snapshot) × (snapshots v ≡ some s))
      → all (has_snapshot snapshots) ids ≡ true
  all_observed [] h = refl
  all_observed (id ∷ ids) h =
      rw ((h id (count_self id ids)).1, has_snapshot) (all_observed ids (λ v k. h v (omega arith)))
