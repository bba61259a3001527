-- ===== src/Services/Control/Trace.antt =====
-- What the collaborators were asked for, and what they answered, at each completed step of a run.
use atlas_manager.Base.{
  ◌≡◌, refl, ◌⊎◌, inl, inr, true, false, List, [], ◌∷◌, Str, Option, some, none, Result, ok, err,
  includes, Bool-cases,
}
use atlas_manager.Services.State.{Service, Operation, operation_name}
use atlas_manager.Services.Plan.{StepKind, control, wait_for_readiness, Step}
use atlas_manager.Services.Control.{
  Thrown, service_not_found, operation_not_supported, sanitize, executed, skipped, ready, failed,
  CompletedStep, ControlPorts, run_step, waited_outcome, controlled_outcome, execute_found,
  completed, add_completed, run_plan,
}

module _ {W : Type 0} (ports : ControlPorts W) where
  -- An operation on a service of the catalog that supports it is a call of the control; any other throws.
  pub data Controls (id : Str) (op : Operation) (w : W)
      : W → Result Thrown (Unit {0}) → Type 0 where
    missing : ports.find_by_id id ≡ none → Controls id op w w (err service_not_found)
    unsupported :
        (s : Service)
        → ports.find_by_id id ≡ some s
        → includes s.supported_operations (operation_name op) ≡ false
        → Controls id op w w (err operation_not_supported)
    called :
        (s : Service) (w' : W) (r : Result Thrown (Unit {0}))
        → ports.find_by_id id ≡ some s
        → includes s.supported_operations (operation_name op) ≡ true
        → ports.control s op w ≡ (w', r)
        → Controls id op w w' r

  -- From one state of the world to another, the completed steps report what happened: a step that is ready is a wait
  -- that the waiter answered without an error, a step that is executed a control without an error, and a step that
  -- failed the error of a wait or of a control, after which nothing happened.
  pub data Traced : List CompletedStep → W → W → Type 0 where
    no_steps : (w : W) → Traced [] w w
    was_ready :
        (s : Step) (t : Str) (answer : Option Str) (cs : List CompletedStep) (w w' u : W)
        → s.kind ≡ wait_for_readiness
        → ports.wait s.service_id w ≡ (w', ok answer)
        → (answer ≡ some t) ⊎ ((answer ≡ none) × (t ≡ ports.now w'))
        → Traced cs w' u
        → Traced (completed s (ready t) ∷ cs) w u
    was_executed :
        (s : Step) (op : Operation) (cs : List CompletedStep) (w w' u : W)
        → s.kind ≡ control
        → s.operation ≡ some op
        → Controls s.service_id op w w' (ok tt)
        → Traced cs w' u
        → Traced (completed s (executed (ports.now w')) ∷ cs) w u
    was_skipped :
        (s : Step) (cs : List CompletedStep) (w u : W)
        → s.kind ≡ control
        → s.operation ≡ none
        → Traced cs w u
        → Traced (completed s skipped ∷ cs) w u
    wait_failed :
        (s : Step) (e : Thrown) (w w' : W)
        → s.kind ≡ wait_for_readiness
        → ports.wait s.service_id w ≡ (w', err e)
        → Traced (completed s (failed (sanitize e)) ∷ []) w w'
    control_failed :
        (s : Step) (op : Operation) (e : Thrown) (w w' : W)
        → s.kind ≡ control
        → s.operation ≡ some op
        → Controls s.service_id op w w' (err e)
        → Traced (completed s (failed (sanitize e)) ∷ []) w w'

  execute_found-Controls :
      (id : Str) (op : Operation) (w : W) (o : Option Service)
      → ports.find_by_id id ≡ o
      → Controls id op w (execute_found ports o op w).0 (execute_found ports o op w).1
  execute_found-Controls id op w none h = missing h
  execute_found-Controls id op w (some s) h =
      elim (Bool-cases (includes s.supported_operations (operation_name op))) [
        | inl e ↦ rw (e, execute_found) (called s _ _ h e refl)
        | inr e ↦ rw (e, execute_found) (unsupported s h e)
      ]

  waited-Traced :
      (s : Step) (w : W) (x : W × Result Thrown (Option Str)) (later : W × List CompletedStep)
      → s.kind ≡ wait_for_readiness
      → ports.wait s.service_id w ≡ x
      → Traced later.1 x.0 later.0
      → Traced
          (add_completed ports s (waited_outcome ports x).1 (waited_outcome ports x).0 later).1
          w
          (add_completed ports s (waited_outcome ports x).1 (waited_outcome ports x).0 later).0
  waited-Traced s w (w', ok (some t)) later k h r =
      was_ready s t (some t) later.1 w w' later.0 k h (inl refl) r
  waited-Traced s w (w', ok none) later k h r =
      was_ready s (ports.now w') none later.1 w w' later.0 k h (inr (refl, refl)) r
  waited-Traced s w (w', err e) later k h r = wait_failed s e w w' k h

  controlled-Traced :
      (s : Step) (op : Operation) (w : W) (x : W × Result Thrown (Unit {0}))
      (later : W × List CompletedStep)
      → s.kind ≡ control
      → s.operation ≡ some op
      → Controls s.service_id op w x.0 x.1
      → Traced later.1 x.0 later.0
      → Traced
          (add_completed ports s
            (controlled_outcome ports x).1
            (controlled_outcome ports x).0
            later).1
          w
          (add_completed ports s
            (controlled_outcome ports x).1
            (controlled_outcome ports x).0
            later).0
  controlled-Traced s op w (w', ok tt) later k o h r =
      was_executed s op later.1 w w' later.0 k o h r
  controlled-Traced s op w (w', err e) later k o h r = control_failed s op e w w' k o h

  waited_world : (x : W × Result Thrown (Option Str)) → (waited_outcome ports x).0 ≡ x.0
  waited_world (w, ok (some t)) = refl
  waited_world (w, ok none) = refl
  waited_world (w, err e) = refl

  controlled_world : (x : W × Result Thrown (Unit {0})) → (controlled_outcome ports x).0 ≡ x.0
  controlled_world (w, ok u) = refl
  controlled_world (w, err e) = refl

  step-Traced :
      (s : Step) (ss : List Step) (w : W) (k : StepKind) (op : Option Operation)
      → s.kind ≡ k
      → s.operation ≡ op
      → ((w' : W) → Traced (run_plan ports ss w').1 w' (run_plan ports ss w').0)
      → Traced
          (add_completed ports s
            (run_step ports k s.service_id op w).1
            (run_step ports k s.service_id op w).0
            (run_plan ports ss (run_step ports k s.service_id op w).0)).1
          w
          (add_completed ports s
            (run_step ports k s.service_id op w).1
            (run_step ports k s.service_id op w).0
            (run_plan ports ss (run_step ports k s.service_id op w).0)).0
  step-Traced s ss w wait_for_readiness op k o later =
      let x = ports.wait s.service_id w in
      waited-Traced s w x (run_plan ports ss (waited_outcome ports x).0) k refl
        (rw (waited_world x) (later x.0))
  step-Traced s ss w control (some op) k o later =
      let x = execute_found ports (ports.find_by_id s.service_id) op w in
      controlled-Traced s op w x (run_plan ports ss (controlled_outcome ports x).0) k o
        (execute_found-Controls s.service_id op w (ports.find_by_id s.service_id) refl)
        (rw (controlled_world x) (later x.0))
  step-Traced s ss w control none k o later =
      was_skipped s (run_plan ports ss w).1 w (run_plan ports ss w).0 k o (later w)

  -- A run of the steps is traced, from the world in which it starts to the one that it leaves.
  pub run_plan-Traced :
      (ss : List Step) (w : W) → Traced (run_plan ports ss w).1 w (run_plan ports ss w).0
  unfolding run_plan
  run_plan-Traced [] w = no_steps w
  run_plan-Traced (s ∷ ss) w =
      step-Traced s ss w s.kind s.operation refl refl (λ w'. run_plan-Traced ss w')
