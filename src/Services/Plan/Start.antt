-- ===== src/Services/Plan/Start.antt =====
-- The plan that starts a service.
use atlas_manager.Base.{
  ◌≤◌, ◌≡◌, ◌≢◌, refl, ap, ◌⊎◌, inl, inr, Bool, true, false, List, [], ◌∷◌, ◌++◌, arith, Str,
  Option, some, none, Result, ok, err, ◌>>=◌, includes, All, All-map_imp, Pairwise, if◌then◌else◌,
}
use atlas_manager.Graph.Count.{count, count_self}
use atlas_manager.Graph.Kahn.Result.{Different}
use atlas_manager.Graph.Order.{InOrder}
use atlas_manager.Services.State.{ServiceState, Operation, operation_name}
use atlas_manager.Services.Plan.{
  control, wait_for_readiness, Step, Snapshot, PlanError, control_step, wait_step, start_steps,
  plan_start, status_unsafe, is_supported,
}
use atlas_manager.Services.Plan.Keys.{is_plannable, fresh}

-- The services that the steps wait for.
abbrev pub waited : List Step → List Str
waited [] = []
waited (s ∷ ss) = elim s.kind [
  | wait_for_readiness ↦ s.service_id ∷ waited ss
  | control ↦ waited ss
]

abbrev pub is_start : Step → Bool
is_start s = elim s.operation [
  | none ↦ false
  | some op ↦ elim op [
    | Operation.start ↦ true
    | Operation.stop ↦ false
    | Operation.restart ↦ false
  ]
]

-- The services that the steps start.
abbrev pub started : List Step → List Str
started [] = []
started (s ∷ ss) = let rest = started ss in if is_start s then s.service_id ∷ rest else rest

-- Before a service is started the steps wait for each of its dependencies; `seen` are those waited for so far.
abbrev pub Waited : (Str → List Str) → List Str → List Step → Type 0
Waited deps seen [] = Unit
Waited deps seen (s ∷ ss) =
    (is_start s ≡ true → (d : Str) → 1 ≤ count d (deps s.service_id) → 1 ≤ count d seen)
    × Waited deps (elim s.kind [ wait_for_readiness ↦ s.service_id ∷ seen | control ↦ seen ]) ss

module _ (snapshots : Str → Option Snapshot) where
  -- The steps of a list of services, one or two for each.
  pub data Starts : List Str → List Step → Type 0 where
    no_more : Starts [] []
    waits :
        (id : Str) (ids : List Str) (s : Snapshot) (steps : List Step)
        → snapshots id ≡ some s
        → s.state ≡ ServiceState.running
        → Starts ids steps
        → Starts (id ∷ ids) (wait_step id ∷ steps)
    starts :
        (id : Str) (ids : List Str) (s : Snapshot) (steps : List Step)
        → snapshots id ≡ some s
        → s.state ≡ ServiceState.stopped
        → Starts ids steps
        → Starts (id ∷ ids) (control_step id Operation.start ∷ wait_step id ∷ steps)

  -- The service runs, or it is stopped and supports the start.
  abbrev pub Startable : Str → Type 0
  Startable v =
      (s : Snapshot) × (snapshots v ≡ some s)
      × ((s.state ≡ ServiceState.running)
          ⊎ ((s.state ≡ ServiceState.stopped)
              × (includes s.supported_operations (operation_name Operation.start) ≡ true)))

  pub plan_start-Starts :
      (ids : List Str) (steps : List Step) → plan_start snapshots ids ≡ ok steps → Starts ids steps
  unfolding plan_start
  plan_start-Starts [] steps h = let same : [] ≡ steps = cc in rw (← same) no_more
  plan_start-Starts (id ∷ ids) steps h =
      from (snapshots id) refl (plan_start snapshots ids) (λ later e. plan_start-Starts ids later e)
        h
    where
      from_state :
          (s : Snapshot)
          → snapshots id ≡ some s
          → (r : Result PlanError (List Step))
          → ((later : List Step) → r ≡ ok later → Starts ids later)
          → ◌≡◌ {A = Result PlanError (List Step)}
              (start_steps id (some s) >>= λ now. r >>= λ later. ok (now ++ later))
              (ok steps)
          → Starts (id ∷ ids) steps
      from_state s e r ih k = by_state s.state refl r ih k
        where
          by_state :
              (t : ServiceState)
              → s.state ≡ t
              → (r : Result PlanError (List Step))
              → ((later : List Step) → r ≡ ok later → Starts ids later)
              → ◌≡◌ {A = Result PlanError (List Step)}
                  (elim t [
                    | ServiceState.running ↦ ok (wait_step id ∷ [])
                    | ServiceState.stopped ↦
                        ok (control_step id Operation.start ∷ wait_step id ∷ [])
                    | ServiceState.failed ↦ err (status_unsafe id)
                    | ServiceState.unknown ↦ err (status_unsafe id)
                  ]
                    >>= λ now. r >>= λ later. ok (now ++ later))
                  (ok steps)
              → Starts (id ∷ ids) steps
          by_state ServiceState.running e' (ok later) ih k =
              let same : wait_step id ∷ later ≡ steps = cc in
              rw (← same) (waits id ids s later e e' (ih later refl))
          by_state ServiceState.stopped e' (ok later) ih k =
              let same : control_step id Operation.start ∷ wait_step id ∷ later ≡ steps = cc in
              rw (← same) (starts id ids s later e e' (ih later refl))
          by_state ServiceState.running e' (err x) ih k = cc
          by_state ServiceState.stopped e' (err x) ih k = cc
          by_state ServiceState.failed e' r ih k = cc
          by_state ServiceState.unknown e' r ih k = cc

      from :
          (o : Option Snapshot)
          → snapshots id ≡ o
          → (r : Result PlanError (List Step))
          → ((later : List Step) → r ≡ ok later → Starts ids later)
          → ◌≡◌ {A = Result PlanError (List Step)}
              (start_steps id o >>= λ now. r >>= λ later. ok (now ++ later))
              (ok steps)
          → Starts (id ∷ ids) steps
      from none e r ih k = cc
      from (some s) e r ih k = from_state s e r ih k

  pub Starts-Waited :
      (deps : Str → List Str) (seen ids : List Str) (steps : List Step)
      → Starts ids steps
      → InOrder deps seen ids
      → Waited deps seen steps
  Starts-Waited deps seen _ _ no_more h = tt
  Starts-Waited deps seen _ _ (waits id ids s steps e e' r) h =
      (λ k. cc, Starts-Waited deps (id ∷ seen) ids steps r h.1)
  Starts-Waited deps seen _ _ (starts id ids s steps e e' r) h =
      (λ k. h.0, (λ k. cc, Starts-Waited deps (id ∷ seen) ids steps r h.1))

  pub Starts-waited : (ids : List Str) (steps : List Step) → Starts ids steps → waited steps ≡ ids
  Starts-waited _ _ no_more = refl
  Starts-waited _ _ (waits id ids s steps e e' r) = ap (λ l. id ∷ l) (Starts-waited ids steps r)
  Starts-waited _ _ (starts id ids s steps e e' r) = ap (λ l. id ∷ l) (Starts-waited ids steps r)

  Starts-ids :
      (ids : List Str) (steps : List Step)
      → Starts ids steps
      → All (λ t. 1 ≤ count t.service_id ids) steps
  Starts-ids _ _ no_more = tt
  Starts-ids _ _ (waits id ids s steps e e' r) =
      (count_self id ids, All-map_imp _ _ steps (λ t k. omega (arith, k)) (Starts-ids ids steps r))
  Starts-ids _ _ (starts id ids s steps e e' r) = (
    count_self id ids,
    (count_self id ids, All-map_imp _ _ steps (λ t k. omega (arith, k)) (Starts-ids ids steps r)),
  )

  apart :
      (ids : List Str) (steps : List Step) (s : Step)
      → count s.service_id ids ≡ 0
      → Starts ids steps
      → All (λ t. s ≢ t) steps
  apart ids steps s h r =
      All-map_imp (λ t. 1 ≤ count t.service_id ids) (λ t. s ≢ t) steps
        (λ t k e. absurd (omega (arith, rw (ap (λ x. x.service_id) e) at h, k)))
        (Starts-ids ids steps r)

  pub Starts-Pairwise :
      (ids : List Str) (steps : List Step)
      → Starts ids steps
      → Different ids
      → Pairwise (λ s t. s ≢ t) steps
  Starts-Pairwise _ _ no_more u = tt
  Starts-Pairwise _ _ (waits id ids s steps e e' r) u = (
    apart ids steps (wait_step id) (fresh id ids u) r,
    Starts-Pairwise ids steps r (λ v. omega (arith, u v)),
  )
  Starts-Pairwise _ _ (starts id ids s steps e e' r) u = (
    (λ k. cc, apart ids steps (control_step id Operation.start) (fresh id ids u) r),
    (
      apart ids steps (wait_step id) (fresh id ids u) r,
      Starts-Pairwise ids steps r (λ v. omega (arith, u v)),
    ),
  )

  start_steps-running :
      (id : Str) (s : Snapshot)
      → snapshots id ≡ some s
      → s.state ≡ ServiceState.running
      → start_steps id (snapshots id) ≡ ok (wait_step id ∷ [])
  start_steps-running id s e e' = rw e (rw e' refl)

  start_steps-stopped :
      (id : Str) (s : Snapshot)
      → snapshots id ≡ some s
      → s.state ≡ ServiceState.stopped
      → start_steps id (snapshots id) ≡ ok (control_step id Operation.start ∷ wait_step id ∷ [])
  start_steps-stopped id s e e' = rw e (rw e' refl)

  plan_start-cons :
      (id : Str) (ids : List Str) (now later : List Step)
      → start_steps id (snapshots id) ≡ ok now
      → plan_start snapshots ids ≡ ok later
      → plan_start snapshots (id ∷ ids) ≡ ok (now ++ later)
  unfolding plan_start
  plan_start-cons id ids now later e e' = rw (e, e') refl

  pub is_plannable-some :
      (st : Step) (s : Snapshot)
      → snapshots st.service_id ≡ some s
      → is_supported st.operation s ≡ true
      → is_plannable snapshots st ≡ true
  is_plannable-some st s e e' = rw (e, is_plannable) e'

  -- A list of services that can be started is planned, and the plan passes the check.
  pub plan_start-returns :
      (ids : List Str)
      → ((v : Str) → 1 ≤ count v ids → Startable v)
      → (steps : List Step) × (plan_start snapshots ids ≡ ok steps)
        × Starts ids steps
        × All (λ s. is_plannable snapshots s ≡ true) steps
  unfolding plan_start
  plan_start-returns [] h = ([], refl, no_more, tt)
  plan_start-returns (id ∷ ids) h =
      let (later, e, r, ok_later) = plan_start-returns ids (λ v k. h v (omega arith)) in
      let (s, found, state) = h id (count_self id ids) in
      let waiting = is_plannable-some (wait_step id) s found refl in
      elim state [
        | inl running ↦ (
          wait_step id ∷ later,
          plan_start-cons id ids (wait_step id ∷ []) later (start_steps-running id s found running)
              e,
          waits id ids s later found running r,
          (waiting, ok_later),
        )
        | inr (stopped, supported) ↦ (
          control_step id Operation.start ∷ wait_step id ∷ later,
          plan_start-cons id ids (control_step id Operation.start ∷ wait_step id ∷ []) later
              (start_steps-stopped id s found stopped) e,
          starts id ids s later found stopped r,
          (
            is_plannable-some (control_step id Operation.start) s found supported,
            (waiting, ok_later),
          ),
        )
      ]
