-- ===== src/Graph/Order.antt =====
-- The orders that `topologicalSort` returns.
use atlas_manager.Base.{
  ◌+◌, ◌≤◌, ◌≡◌, refl, sym, ◌⊎◌, inl, inr, true, List, [], ◌∷◌, ◌++◌, arith, Str, str_eq, str_eq→eq,
  Bool-cases, includes, reverse,
}
use atlas_manager.Graph.Count.{count, count-append, includes→count, not-includes→count, count_self}
use atlas_manager.Graph.Kahn.Run.{Ordered}
use atlas_manager.Graph.Kahn.Result.{Different}
use atlas_manager.Graph.{add_one, add_all}

-- Each element comes after all its predecessors, which stand in `seen` or before it.
abbrev pub InOrder : (Str → List Str) → List Str → List Str → Type 0
InOrder before seen [] = Unit
InOrder before seen (v ∷ vs) =
    ((d : Str) → 1 ≤ count d (before v) → 1 ≤ count d seen) × InOrder before (v ∷ seen) vs

pub count-reverse : (v : Str) (xs : List Str) → count v (reverse xs) ≡ count v xs
count-reverse v [] = refl
count-reverse v (x ∷ xs) = omega (arith, count-append v (reverse xs) (x ∷ []), count-reverse v xs)

InOrder-snoc :
    (before : Str → List Str) (seen xs : List Str) (x : Str)
    → InOrder before seen xs
    → ((d : Str) → 1 ≤ count d (before x) → 1 ≤ count d seen + count d xs)
    → InOrder before seen (xs ++ (x ∷ []))
InOrder-snoc before seen [] x h k = (λ d e. omega (arith, k d e), tt)
InOrder-snoc before seen (y ∷ xs) x h k =
    (h.0, InOrder-snoc before (y ∷ seen) xs x h.1 (λ d e. omega (arith, k d e)))

-- What is done newest first is in order when it is reversed.
pub Ordered-InOrder :
    (deps : Str → List Str) (done : List Str) → Ordered deps done → InOrder deps [] (reverse done)
Ordered-InOrder deps [] h = tt
Ordered-InOrder deps (x ∷ done) h =
    InOrder-snoc deps [] (reverse done) x (Ordered-InOrder deps done h.1)
      (λ d e. omega (arith, h.0 d e, count-reverse d done))

-- Sets in the order of insertion.
count-add_one :
    (v x : Str) (set : List Str)
    → (count v set ≤ count v (add_one set x))
      × (1 ≤ count x (add_one set x))
      × (1 ≤ count v (add_one set x) → (1 ≤ count v set) ⊎ (str_eq x v ≡ true))
      × (Different set → Different (add_one set x))
count-add_one v x set = elim (Bool-cases (includes set x)) [
  | inl e ↦ rw e (omega arith, includes→count x set e, λ h. inl h, λ h. h)
  | inr e ↦ rw e (
    omega (arith, count-append v set (x ∷ [])),
    omega (arith, count-append x set (x ∷ []), count_self x []),
    λ h. ground (arith, count-append v set (x ∷ [])),
    λ h w.
        ground (arith, count-append w set (x ∷ []), h w, str_eq→eq x w, not-includes→count x set e),
  )
]

pub add_all-grows : (v : Str) (set xs : List Str) → count v set ≤ count v (add_all set xs)
unfolding add_all
add_all-grows v set [] = omega arith
add_all-grows v set (x ∷ xs) =
    omega (arith, (count-add_one v x set).0, add_all-grows v (add_one set x) xs)

pub add_all-has : (v : Str) (set xs : List Str) → 1 ≤ count v xs → 1 ≤ count v (add_all set xs)
unfolding add_all
add_all-has v set [] h = absurd (omega arith)
add_all-has v set (x ∷ xs) h = elim (Bool-cases (str_eq x v)) [
  | inl e ↦
      rw (sym (str_eq→eq x v e))
        (omega (arith, (count-add_one x x set).1, add_all-grows x (add_one set x) xs))
  | inr e ↦ add_all-has v (add_one set x) xs (ground arith)
]

pub add_all-only :
    (v : Str) (set xs : List Str)
    → 1 ≤ count v (add_all set xs)
    → (1 ≤ count v set) ⊎ (1 ≤ count v xs)
unfolding add_all
add_all-only v set [] h = inl h
add_all-only v set (x ∷ xs) h =
    ground (arith, add_all-only v (add_one set x) xs, (count-add_one v x set).2)

pub add_all-Different : (set xs : List Str) → Different set → Different (add_all set xs)
unfolding add_all
add_all-Different set [] h = h
add_all-Different set (x ∷ xs) h =
    add_all-Different (add_one set x) xs ((count-add_one x x set).3 h)
