-- ===== src/Services/Control/Gate.antt =====
-- The scheduled start of a service whose dependencies are expected to be unavailable.
use atlas_manager.Base.{
  ◌≤◌, ◌≡◌, refl, ap, ◌∙◌, ◌⊎◌, inl, inr, Bool, true, false, List, [], ◌∷◌, arith, Str, str_eq,
  str_eq→eq, some, ok, err, ◌>>=◌, ◌>>◌, throw_if, Bool-cases,
}
use atlas_manager.Graph.Count.{count}
use atlas_manager.Graph.Closure.Laws.{Reach}
use atlas_manager.Graph.Created.{created-closure, dependencies-apart}
use atlas_manager.Graph.{Entry, Graph, create_graph, dependencies, neighbors, compute_closure}
use atlas_manager.Scheduling.Evaluator.{unavailable, disabled}
use atlas_manager.Services.State.{Service, Operation}
use atlas_manager.Services.Plan.{candidates_of}
use atlas_manager.Services.Control.{
  scheduled, dependency_unavailable, ControlPorts, is_blocking, validate_availability, capture,
  run_captured, with_graph, execute_control,
}

module _ {W : Type 0} (ports : ControlPorts W) where
  validate_availability-refuses :
      (ids : List Str) (v : Str)
      → ((u : Str) → (b : Bool) × (is_blocking (ports.availability u) ≡ ok b))
      → 1 ≤ count v ids
      → is_blocking (ports.availability v) ≡ ok true
      → validate_availability ports ids ≡ err dependency_unavailable
  unfolding validate_availability
  validate_availability-refuses [] v read h e = absurd (omega arith)
  validate_availability-refuses (id ∷ ids) v read h e =
      step (read id).0 (read id).1 (λ k. validate_availability-refuses ids v read k e)
    where
      step :
          (b : Bool)
          → is_blocking (ports.availability id) ≡ ok b
          → (1 ≤ count v ids → validate_availability ports ids ≡ err dependency_unavailable)
          → (is_blocking (ports.availability id) >>= λ blocking.
              throw_if blocking dependency_unavailable >> validate_availability ports ids)
            ≡ err dependency_unavailable
      step true found ih = rw found refl
      step false found ih = rw found (ih later)
        where
          other : str_eq id v ≡ false
          other = elim (Bool-cases (str_eq id v)) [
            | inl same ↦
                let clash : is_blocking (ports.availability v) ≡ ok false =
                  rw (← str_eq→eq id v same) found in
                cc
            | inr e' ↦ e'
          ]

          later : 1 ≤ count v ids
          later = ground (arith, other)

-- A scheduled start on a created graph is refused, and changes nothing, if a service that the target depends on,
-- directly or not, is expected to be unavailable or is disabled; the availability of every service can be read.
pub execute_control-refuses :
    {W : Type 0} (ports : ControlPorts W) (es : List Entry) (g : Graph) (target v : Str) (w : W)
    (s : Service)
    → create_graph es ≡ ok g
    → ports.graph ≡ some g
    → ports.find_by_id target ≡ some s
    → ((u : Str) → (b : Bool) × (is_blocking (ports.availability u) ≡ ok b))
    → Reach (neighbors g dependencies) target v
    → (ports.availability v ≡ some unavailable) ⊎ (ports.availability v ≡ some disabled)
    → execute_control ports target Operation.start scheduled w ≡ (w, err dependency_unavailable)
unfolding execute_control
execute_control-refuses ports es g target v w s made graphed found read r bad =
    let blocked : is_blocking (ports.availability v) ≡ ok true = elim bad [
      | inl e ↦ ap is_blocking e
      | inr e ↦ ap is_blocking e
    ] in
    let refused =
      validate_availability-refuses ports (compute_closure g dependencies target) v read
        ((created-closure es g dependencies target v made).1 (r, dependencies-apart es g made r))
        blocked in
    rw (found, execute_control)
      (ap (λ o. with_graph ports o target Operation.start scheduled w) graphed
        ∙ ap
            (λ c.
              run_captured ports g target Operation.start (ports.now w)
                (c >> capture ports Operation.start (candidates_of g Operation.start target) w) w)
            refused)
