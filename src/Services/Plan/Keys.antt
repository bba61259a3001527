-- ===== src/Services/Plan/Keys.antt =====
-- The key of a step tells its kind, its service and its operation: the check of the planned operations.
use atlas_manager.Base.{
  ◌+◌, ◌≤◌, ◌≡◌, ◌≢◌, refl, sym, ap, ◌∙◌, inl, inr, Bool, true, false, not, List, [], ◌∷◌, ◌++◌,
  arith, Str, lit, str_eq, str_eq→eq, Option, some, none, Result, ok, err, ◌>>◌, throw_if, includes,
  Bool-cases, All, All-map_imp, Pairwise, reverse, reverse-append, reverse-reverse, map,
}
use mathlib.Core.List.{append_assoc}
use atlas_manager.Graph.Kahn.Result.{Different}
use atlas_manager.Graph.Count.{count, count_self, includes→count}
use atlas_manager.Services.State.{Operation, start, stop, restart}
use atlas_manager.Services.Plan.{
  StepKind, control, wait_for_readiness, Step, Snapshot, PlanError, plan_invalid, step_key,
  operation_or_empty, is_supported, kind_name, validate_operations,
}

-- Two strings that end in operations are the same if the parts are.
ends-inj :
    (o o' : Option Operation) (xs ys : Str)
    → reverse (lit ":" ++ operation_or_empty o) ++ reverse xs
      ≡ reverse (lit ":" ++ operation_or_empty o') ++ reverse ys
    → (o ≡ o') × (reverse xs ≡ reverse ys)
ends-inj none none xs ys h = (refl, cc)
ends-inj none (some start) xs ys h = absurd (ground arith)
ends-inj none (some stop) xs ys h = absurd (ground arith)
ends-inj none (some restart) xs ys h = absurd (ground arith)
ends-inj (some start) none xs ys h = absurd (ground arith)
ends-inj (some start) (some start) xs ys h = (refl, cc)
ends-inj (some start) (some stop) xs ys h = absurd (ground arith)
ends-inj (some start) (some restart) xs ys h = absurd (ground arith)
ends-inj (some stop) none xs ys h = absurd (ground arith)
ends-inj (some stop) (some start) xs ys h = absurd (ground arith)
ends-inj (some stop) (some stop) xs ys h = (refl, cc)
ends-inj (some stop) (some restart) xs ys h = absurd (ground arith)
ends-inj (some restart) none xs ys h = absurd (ground arith)
ends-inj (some restart) (some start) xs ys h = absurd (ground arith)
ends-inj (some restart) (some stop) xs ys h = absurd (ground arith)
ends-inj (some restart) (some restart) xs ys h = (refl, cc)

operation-inj :
    (o o' : Option Operation) (xs ys : Str)
    → xs ++ (lit ":" ++ operation_or_empty o) ≡ ys ++ (lit ":" ++ operation_or_empty o')
    → (o ≡ o') × (xs ≡ ys)
operation-inj o o' xs ys h =
    let (same, back) = ends-inj o o' xs ys (
      sym (reverse-append xs (lit ":" ++ operation_or_empty o))
      ∙ ap reverse h
      ∙ reverse-append ys (lit ":" ++ operation_or_empty o')) in
    (same, sym (reverse-reverse xs) ∙ ap reverse back ∙ reverse-reverse ys)

kind-inj :
    (k k' : StepKind) (v w : Str)
    → kind_name k ++ (lit ":" ++ v) ≡ kind_name k' ++ (lit ":" ++ w)
    → (k ≡ k') × (v ≡ w)
kind-inj control control v w h = (refl, cc)
kind-inj control wait_for_readiness v w h = absurd (ground arith)
kind-inj wait_for_readiness control v w h = absurd (ground arith)
kind-inj wait_for_readiness wait_for_readiness v w h = (refl, cc)

step_key-split :
    (s : Step)
    → step_key s
      ≡ (kind_name s.kind ++ (lit ":" ++ s.service_id))
        ++ (lit ":" ++ operation_or_empty s.operation)
step_key-split s = sym (
    append_assoc (kind_name s.kind) (lit ":" ++ s.service_id)
      (lit ":" ++ operation_or_empty s.operation))

pub step_key-inj : (s t : Step) → step_key s ≡ step_key t → s ≡ t
step_key-inj s t h =
    let (same_operation, front) =
      operation-inj s.operation t.operation (kind_name s.kind ++ (lit ":" ++ s.service_id))
        (kind_name t.kind ++ (lit ":" ++ t.service_id))
        (sym (step_key-split s) ∙ h ∙ step_key-split t) in
    let (same_kind, same_id) = kind-inj s.kind t.kind s.service_id t.service_id front in
    rw (same_operation, same_kind, same_id) refl

keys-apart :
    (s : Step) (ss : List Step) → All (λ t. s ≢ t) ss → count (step_key s) (map step_key ss) ≡ 0
keys-apart s [] h = refl
keys-apart s (t ∷ ss) h = elim (Bool-cases (str_eq (step_key t) (step_key s))) [
  | inl e ↦ absurd (h.0 (sym (step_key-inj t s (str_eq→eq (step_key t) (step_key s) e))))
  | inr e ↦ ground (arith, keys-apart s ss h.1)
]

pub keys-Different :
    (ss : List Step) → Pairwise (λ s t. s ≢ t) ss → (k : Str) → count k (map step_key ss) ≤ 1
keys-Different [] h k = omega arith
keys-Different (s ∷ ss) h k = elim (Bool-cases (str_eq (step_key s) k)) [
  | inl e ↦
      let none_left : count k (map step_key ss) ≡ 0 =
        rw (sym (str_eq→eq (step_key s) k e)) (keys-apart s ss h.0) in
      ground (arith, none_left)
  | inr e ↦ ground (arith, keys-Different ss h.1 k)
]

abbrev pub is_plannable : (Str → Option Snapshot) → Step → Bool
is_plannable snapshots s = elim (snapshots s.service_id) [
  | none ↦ false
  | some n ↦ is_supported s.operation n
]

-- Different steps whose services support the operations pass the check.
pub validate-accepts :
    (snapshots : Str → Option Snapshot) (seen : List Str) (ss : List Step)
    → ((k : Str) → count k seen + count k (map step_key ss) ≤ 1)
    → All (λ s. is_plannable snapshots s ≡ true) ss
    → validate_operations snapshots seen ss ≡ ok tt
unfolding validate_operations
validate-accepts snapshots seen [] u h = refl
validate-accepts snapshots seen (s ∷ ss) u h =
    step (snapshots s.service_id) h.0
      (validate-accepts snapshots (step_key s ∷ seen) ss (λ k. omega (arith, u k)) h.1)
  where
    unseen : includes seen (step_key s) ≡ false
    unseen = elim (Bool-cases (includes seen (step_key s))) [
      | inl e ↦ absurd (
          omega (
            arith,
            u (step_key s),
            includes→count (step_key s) seen e,
            count_self (step_key s) (map step_key ss),
          ))
      | inr e ↦ e
    ]

    step :
        (o : Option Snapshot)
        → ◌≡◌ {A = Bool} (elim o [ none ↦ false | some n ↦ is_supported s.operation n ]) true
        → {r : Result PlanError (Unit {0})} → r ≡ ok tt
        → ◌≡◌ {A = Result PlanError (Unit {0})}
            (elim o [
              | none ↦ err plan_invalid
              | some n ↦
                  throw_if (includes seen (step_key s)) plan_invalid
                  >> (throw_if (not (is_supported s.operation n)) plan_invalid >> r)
            ])
            (ok tt)
    step none k e = cc
    step (some n) k e = rw (unseen, k) e

-- What passes the check is supported.
pub validate-supported :
    (snapshots : Str → Option Snapshot) (seen : List Str) (ss : List Step)
    → validate_operations snapshots seen ss ≡ ok tt
    → All (λ s. is_plannable snapshots s ≡ true) ss
unfolding validate_operations
validate-supported snapshots seen [] h = tt
validate-supported snapshots seen (s ∷ ss) h =
    step (snapshots s.service_id) (includes seen (step_key s))
      (validate_operations snapshots (step_key s ∷ seen) ss)
      (validate-supported snapshots (step_key s ∷ seen) ss) h
  where
    step :
        (o : Option Snapshot) (b : Bool) (r : Result PlanError (Unit {0}))
        → {P : Type 0} → (r ≡ ok tt → P)
        → ◌≡◌ {A = Result PlanError (Unit {0})}
            (elim o [
              | none ↦ err plan_invalid
              | some n ↦
                  throw_if b plan_invalid
                  >> (throw_if (not (is_supported s.operation n)) plan_invalid >> r)
            ])
            (ok tt)
        → (◌≡◌ {A = Bool} (elim o [ none ↦ false | some n ↦ is_supported s.operation n ]) true) × P
    step none b r f k = cc
    step (some n) true r f k = cc
    step (some n) false r {P} f k = passed (is_supported s.operation n) k
      where
        passed :
            (c : Bool)
            → ◌≡◌ {A = Result PlanError (Unit {0})} (throw_if (not c) plan_invalid >> r) (ok tt)
            → (c ≡ true) × P
        passed true k = (refl, f k)
        passed false k = cc

pub differ :
    (s : Step) (ss : List Step) → All (λ t. s.service_id ≢ t.service_id) ss → All (λ t. s ≢ t) ss
differ s ss h = All-map_imp _ _ ss (λ t k e. k (ap (λ x. x.service_id) e)) h

pub absent : (v id : Str) (ids : List Str) → count v (id ∷ ids) ≡ 0 → v ≢ id
absent v id ids h e =
    let gone : count id (id ∷ ids) ≡ 0 = sym (ap (λ x. count x (id ∷ ids)) e) ∙ h in
    absurd (omega (arith, gone, count_self id ids))

pub fresh : (id : Str) (ids : List Str) → Different (id ∷ ids) → count id ids ≡ 0
fresh id ids u = ground (arith, u id, count_self id [])
