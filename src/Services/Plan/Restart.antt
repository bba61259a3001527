-- ===== src/Services/Plan/Restart.antt =====
-- The plan that restarts a service.
use atlas_manager.Base.{
  ◌≤◌, ◌≡◌, ◌≢◌, refl, inl, inr, Bool, true, false, List, [], ◌∷◌, ◌++◌, arith, Str, str_eq,
  str_eq→eq, Option, some, none, ok, Bool-cases, includes, All, Pairwise, reverse, if◌then◌else◌,
}
use atlas_manager.Graph.Count.{count, count_self}
use atlas_manager.Graph.Kahn.Result.{Different}
use atlas_manager.Graph.Order.{count-reverse}
use atlas_manager.Services.State.{Operation, operation_name}
use atlas_manager.Services.Plan.{
  Snapshot, control_step, wait_step, is_active, active_of, stops_of, starts_of, restart_steps,
}
use atlas_manager.Services.Plan.Keys.{differ, absent, fresh}

-- The snapshot shows that the service is not stopped.
abbrev pub is_active_at : (Str → Option Snapshot) → Str → Bool
is_active_at snapshots v = elim (snapshots v) [ none ↦ false | some s ↦ is_active s ]

module _ (snapshots : Str → Option Snapshot) where
  is_active_at-some :
      (v : Str) (s : Snapshot) → snapshots v ≡ some s → is_active_at snapshots v ≡ is_active s
  is_active_at-some v s e = rw (e, is_active_at) refl

  -- The active services of a list whose services have snapshots.
  pub active_of-count :
      (ids : List Str)
      → ((v : Str) → 1 ≤ count v ids → (s : Snapshot) × (snapshots v ≡ some s))
      → (active : List Str) × (active_of snapshots ids ≡ ok active)
        × ((v : Str) → count v active ≡ (if is_active_at snapshots v then count v ids else 0))
  active_of-count [] h = (
    [],
    refl,
    λ v. elim (Bool-cases (is_active_at snapshots v)) [ inl e ↦ rw e refl | inr e ↦ rw e refl ],
  )
  active_of-count (id ∷ ids) h =
      let (rest, e, counts) = active_of-count ids (λ v k. h v (omega arith)) in
      let (s, found) = h id (count_self id ids) in
      (
        if is_active s then id ∷ rest else rest,
        returns s found rest e,
        λ v. counted s found rest v (counts v),
      )
    where
      returns :
          (s : Snapshot)
          → snapshots id ≡ some s
          → (rest : List Str) → active_of snapshots ids ≡ ok rest
          → active_of snapshots (id ∷ ids) ≡ ok (if is_active s then id ∷ rest else rest)
      returns s found rest e = rw (found, active_of) (rw e refl)

      counted :
          (s : Snapshot)
          → snapshots id ≡ some s
          → (rest : List Str) (v : Str)
          → count v rest ≡ (if is_active_at snapshots v then count v ids else 0)
          → count v (if is_active s then id ∷ rest else rest)
            ≡ (if is_active_at snapshots v then count v (id ∷ ids) else 0)
      counted s found rest v e = elim (Bool-cases (str_eq id v)) [
        | inl same ↦
            let known : is_active_at snapshots v ≡ is_active s =
              rw (← str_eq→eq id v same) (is_active_at-some id s found) in
            ground (arith, e, known)
        | inr other ↦ ground (arith, e)
      ]

-- A snapshot shows that the service supports the operation.
abbrev pub Supports : (Str → Option Snapshot) → Operation → Str → Type 0
Supports snapshots op v =
    (s : Snapshot) × (snapshots v ≡ some s)
    × (includes s.supported_operations (operation_name op) ≡ true)

-- The steps of the plan differ.
module _ {ℓ} {A : Type ℓ} (R : A → A → Type ℓ) where
  pub All-append : (P : A → Type ℓ) (xs ys : List A) → All P xs → All P ys → All P (xs ++ ys)
  All-append P [] ys h k = k
  All-append P (x ∷ xs) ys h k = (h.0, All-append P xs ys h.1 k)

  Pairwise-append :
      (xs ys : List A)
      → Pairwise R xs
      → Pairwise R ys
      → All (λ x. All (R x) ys) xs
      → Pairwise R (xs ++ ys)
  Pairwise-append [] ys h k c = k
  Pairwise-append (x ∷ xs) ys h k c =
      (All-append (R x) xs ys h.0 c.0, Pairwise-append xs ys h.1 k c.1)

stops_of-ids :
    (v : Str) (ids : List Str) → count v ids ≡ 0 → All (λ t. v ≢ t.service_id) (stops_of ids)
stops_of-ids v [] h = tt
stops_of-ids v (id ∷ ids) h = (absent v id ids h, stops_of-ids v ids (omega arith))

starts_of-ids :
    (v : Str) (ids : List Str) → count v ids ≡ 0 → All (λ t. v ≢ t.service_id) (starts_of ids)
starts_of-ids v [] h = tt
starts_of-ids v (id ∷ ids) h =
    let other : v ≢ id = absent v id ids h in (other, (other, starts_of-ids v ids (omega arith)))

stops_of-Pairwise : (ids : List Str) → Different ids → Pairwise (λ s t. s ≢ t) (stops_of ids)
stops_of-Pairwise [] u = tt
stops_of-Pairwise (id ∷ ids) u = (
  differ (control_step id Operation.stop) (stops_of ids) (stops_of-ids id ids (fresh id ids u)),
  stops_of-Pairwise ids (λ v. omega (arith, u v)),
)

starts_of-Pairwise : (ids : List Str) → Different ids → Pairwise (λ s t. s ≢ t) (starts_of ids)
starts_of-Pairwise [] u = tt
starts_of-Pairwise (id ∷ ids) u =
    let later = starts_of-ids id ids (fresh id ids u) in
    (
      (λ e. cc, differ (control_step id Operation.start) (starts_of ids) later),
      (
        differ (wait_step id) (starts_of ids) later,
        starts_of-Pairwise ids (λ v. omega (arith, u v)),
      ),
    )

not_stop :
    (id : Str) (ids : List Str) → All (λ t. control_step id Operation.stop ≢ t) (starts_of ids)
not_stop id [] = tt
not_stop id (w ∷ ws) = (λ e. cc, (λ e. cc, not_stop id ws))

stops-apart :
    (target : Str) (ids ws : List Str)
    → All
        (λ s.
          All
            (λ t. s ≢ t)
            (control_step target Operation.restart ∷ wait_step target ∷ starts_of ws))
        (stops_of ids)
stops-apart target [] ws = tt
stops-apart target (id ∷ ids) ws = ((λ e. cc, (λ e. cc, not_stop id ws)), stops-apart target ids ws)

pub restart_steps-Pairwise :
    (target : Str) (order : List Str)
    → Different order
    → count target order ≡ 0
    → Pairwise (λ s t. s ≢ t) (restart_steps target order)
restart_steps-Pairwise target order u h =
    let back : Different (reverse order) = λ v. omega (arith, u v, count-reverse v order) in
    let away = starts_of-ids target (reverse order) (omega (arith, count-reverse target order)) in
    Pairwise-append (λ s t. s ≢ t) (stops_of order)
      (control_step target Operation.restart ∷ wait_step target ∷ starts_of (reverse order))
      (stops_of-Pairwise order u)
      (
        (λ e. cc, differ (control_step target Operation.restart) (starts_of (reverse order)) away),
        (
          differ (wait_step target) (starts_of (reverse order)) away,
          starts_of-Pairwise (reverse order) back,
        ),
      )
      (stops-apart target order (reverse order))
