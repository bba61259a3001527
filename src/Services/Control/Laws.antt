-- ===== src/Services/Control/Laws.antt =====
-- The run of a plan, step by step, and the run of a start plan.
use atlas_manager.Base.{
  ◌≤◌, ◌≡◌, ◌≢◌, refl, ap, ◌⊎◌, inl, inr, Bool, true, false, List, [], ◌∷◌, arith, Str, Option,
  some, none, Result, ok, err, any, if◌then◌else◌,
}
use atlas_manager.Graph.Count.{count}
use atlas_manager.Services.State.{Operation}
use atlas_manager.Services.Plan.{StepKind, control, wait_for_readiness, Step}
use atlas_manager.Services.Plan.Start.{waited, is_start, Waited}
use atlas_manager.Services.Control.{
  Thrown, FailureText, Outcome, executed, skipped, ready, failed, CompletedStep, ControlPorts,
  is_failed, run_step, waited_outcome, controlled_outcome, execute_found, completed, add_completed,
  run_plan,
}

-- The outcomes of a step that does not fail.
abbrev pub fits : StepKind → Outcome → Bool
fits wait_for_readiness (ready t) = true
fits control (executed t) = true
fits control skipped = true
fits _ _ = false

-- The completed steps follow the plan, up to the first that fails.
pub data Ran : List Step → List CompletedStep → Type 0 where
  all_done : Ran [] []
  fails : (s : Step) (ss : List Step) (t : FailureText) → Ran (s ∷ ss) (completed s (failed t) ∷ [])
  goes_on :
      (s : Step) (o : Outcome) (ss : List Step) (done : List CompletedStep)
      → fits s.kind o ≡ true
      → Ran ss done
      → Ran (s ∷ ss) (completed s o ∷ done)

abbrev pub Stepped : StepKind → Outcome → Type 0
Stepped k o = (fits k o ≡ true) ⊎ ((t : FailureText) × (o ≡ failed t))

module _ {W : Type 0} (ports : ControlPorts W) where
  controlled-Stepped :
      (x : W × Result Thrown (Unit {0})) → Stepped control (controlled_outcome ports x).1
  controlled-Stepped (w, ok u) = inl refl
  controlled-Stepped (w, err e) = inr (_, refl)

  waited-Stepped :
      (x : W × Result Thrown (Option Str)) → Stepped wait_for_readiness (waited_outcome ports x).1
  waited-Stepped (w, ok (some t)) = inl refl
  waited-Stepped (w, ok none) = inl refl
  waited-Stepped (w, err e) = inr (_, refl)

  run_step-Stepped :
      (k : StepKind) (id : Str) (op : Option Operation) (w : W)
      → Stepped k (run_step ports k id op w).1
  run_step-Stepped wait_for_readiness id op w = waited-Stepped (ports.wait id w)
  run_step-Stepped control id (some op) w =
      controlled-Stepped (execute_found ports (ports.find_by_id id) op w)
  run_step-Stepped control id none w = inl refl

  add_completed-Ran :
      (s : Step) (ss : List Step) (o : Outcome) (w : W) (later : W × List CompletedStep)
      → Stepped s.kind o
      → Ran ss later.1
      → Ran (s ∷ ss) (add_completed ports s o w later).1
  add_completed-Ran s ss (failed t) w later h r = fails s ss t
  add_completed-Ran s ss (executed t) w later (inl f) r = goes_on s (executed t) ss later.1 f r
  add_completed-Ran s ss skipped w later (inl f) r = goes_on s skipped ss later.1 f r
  add_completed-Ran s ss (ready t) w later (inl f) r = goes_on s (ready t) ss later.1 f r
  add_completed-Ran s ss _ w later (inr (t, e)) r = cc

  pub run_plan-Ran : (ss : List Step) (w : W) → Ran ss (run_plan ports ss w).1
  unfolding run_plan
  run_plan-Ran [] w = all_done
  run_plan-Ran (s ∷ ss) w =
      let stepped = run_step ports s.kind s.service_id s.operation w in
      add_completed-Ran s ss stepped.1 stepped.0 (run_plan ports ss stepped.0)
        (run_step-Stepped s.kind s.service_id s.operation w) (run_plan-Ran ss stepped.0)

abbrev pub is_ready : Outcome → Bool
is_ready (ready t) = true
is_ready _ = false

-- The services that were ready.
abbrev pub ready_ids : List CompletedStep → List Str
ready_ids [] = []
ready_ids (c ∷ cs) =
    let rest = ready_ids cs in if is_ready c.outcome then c.service_id ∷ rest else rest

abbrev pub was_started : Option Operation → Outcome → Bool
was_started (some Operation.start) (executed t) = true
was_started _ _ = false

-- When a service was started, each of its dependencies had been ready before; `seen` are those ready so far.
abbrev pub ReadyBefore : (Str → List Str) → List Str → List CompletedStep → Type 0
ReadyBefore deps seen [] = Unit
ReadyBefore deps seen (c ∷ cs) =
    (was_started c.operation c.outcome ≡ true
      → (d : Str) → 1 ≤ count d (deps c.service_id)
      → 1 ≤ count d seen)
    × ReadyBefore deps (if is_ready c.outcome then c.service_id ∷ seen else seen) cs

fits-ready : (k : StepKind) (t : Str) → fits k (ready t) ≡ true → k ≡ wait_for_readiness
fits-ready wait_for_readiness t h = refl
fits-ready control t h = cc

fits-executed : (k : StepKind) (t : Str) → fits k (executed t) ≡ true → k ≡ control
fits-executed control t h = refl
fits-executed wait_for_readiness t h = cc

fits-skipped : (k : StepKind) → fits k skipped ≡ true → k ≡ control
fits-skipped control h = refl
fits-skipped wait_for_readiness h = cc

no_failure : (k : StepKind) (t : FailureText) → fits k (failed t) ≢ true
no_failure control t h = cc
no_failure wait_for_readiness t h = cc

was_started-is_start :
    (s : Step) (t : Str) → was_started s.operation (executed t) ≡ true → is_start s ≡ true
was_started-is_start s t h = by_operation s.operation refl h
  where
    by_operation :
        (o : Option Operation)
        → s.operation ≡ o
        → was_started o (executed t) ≡ true
        → is_start s ≡ true
    by_operation (some Operation.start) e k = rw e refl
    by_operation (some Operation.stop) e k = cc
    by_operation (some Operation.restart) e k = cc
    by_operation none e k = cc

was_started-skipped : (o : Option Operation) → was_started o skipped ≡ false
was_started-skipped none = refl
was_started-skipped (some Operation.start) = refl
was_started-skipped (some Operation.stop) = refl
was_started-skipped (some Operation.restart) = refl

pub was_started-failed : (o : Option Operation) (t : FailureText) → was_started o (failed t) ≡ false
was_started-failed none t = refl
was_started-failed (some Operation.start) t = refl
was_started-failed (some Operation.stop) t = refl
was_started-failed (some Operation.restart) t = refl

-- A plan that waits for the dependencies has them ready when it runs.
pub Ran-ReadyBefore :
    (deps : Str → List Str) (seen : List Str) (ss : List Step) (done : List CompletedStep)
    → Ran ss done
    → Waited deps seen ss
    → ReadyBefore deps seen done
Ran-ReadyBefore deps seen _ _ all_done h = tt
Ran-ReadyBefore deps seen _ _ (fails s ss t) h =
    (λ e. absurd (ground (arith, was_started-failed s.operation t, e)), tt)
Ran-ReadyBefore deps seen _ _ (goes_on s (ready t) ss done f r) h = (
  λ e. cc,
  Ran-ReadyBefore deps (s.service_id ∷ seen) ss done r (rw (fits-ready s.kind t f) at h.1),
)
Ran-ReadyBefore deps seen _ _ (goes_on s (executed t) ss done f r) h = (
  λ e. h.0 (was_started-is_start s t e),
  Ran-ReadyBefore deps seen ss done r (rw (fits-executed s.kind t f) at h.1),
)
Ran-ReadyBefore deps seen _ _ (goes_on s skipped ss done f r) h = (
  λ e. absurd (ground (arith, was_started-skipped s.operation, e)),
  Ran-ReadyBefore deps seen ss done r (rw (fits-skipped s.kind f) at h.1),
)
Ran-ReadyBefore deps seen _ _ (goes_on s (failed t) ss done f r) h = absurd (no_failure s.kind t f)

pub Ran-ready_ids :
    (ss : List Step) (done : List CompletedStep)
    → Ran ss done
    → any is_failed done ≡ false
    → ready_ids done ≡ waited ss
Ran-ready_ids _ _ all_done h = refl
Ran-ready_ids _ _ (fails s ss t) h = cc
Ran-ready_ids _ _ (goes_on s (ready t) ss done f r) h =
    rw (fits-ready s.kind t f) (ap (λ l. s.service_id ∷ l) (Ran-ready_ids ss done r h))
Ran-ready_ids _ _ (goes_on s (executed t) ss done f r) h =
    rw (fits-executed s.kind t f) (Ran-ready_ids ss done r h)
Ran-ready_ids _ _ (goes_on s skipped ss done f r) h =
    rw (fits-skipped s.kind f) (Ran-ready_ids ss done r h)
Ran-ready_ids _ _ (goes_on s (failed t) ss done f r) h = absurd (no_failure s.kind t f)
