-- ===== src/Graph/Kahn/Step.antt =====
-- One step of the queue algorithm: what taking a node off the queue does to the degrees.
use atlas_manager.Base.{
  ℕ, zero, suc, ◌+◌, ◌≤◌, ◌≡◌, refl, sym, ap, ◌∙◌, inl, inr, true, false, not, ◌||◌, List, [], ◌∷◌,
  arith, Str, str_eq, str_eq→eq, str_eq_symm, str_eq_refl, some, length, if◌then◌else◌, Bool-cases,
  includes, ◌==◌,
}
use atlas_manager.Base.Int.{pos}
use atlas_manager.Graph.Count.{one_if, count, includes→count, count→includes, count_self}
use atlas_manager.Graph.Kahn.{Degrees, set_degree, decrement, is_zero, relax}

-- How many of the dependencies are not done.
abbrev pub missing : List Str → List Str → ℕ
missing done [] = 0
missing done (d ∷ ds) = one_if (not (includes done d)) + missing done ds

pub missing-nil : (ds : List Str) → missing [] ds ≡ length ds
missing-nil [] = refl
missing-nil (d ∷ ds) = omega (arith, missing-nil ds)

missing-cons_head :
    (id d : Str) (done : List Str)
    → includes done id ≡ false
    → one_if (not (includes done d))
      ≡ one_if (not (str_eq id d || includes done d)) + one_if (str_eq d id)
missing-cons_head id d done h = elim (Bool-cases (str_eq id d)) [
  | inl e ↦ rw (sym (str_eq→eq id d e)) (rw (str_eq_refl id) (rw h (omega arith)))
  | inr e ↦ rw (str_eq_symm d id) (rw e (omega arith))
]

-- A node that is done is no longer missing.
pub missing-cons :
    (id : Str) (done ds : List Str)
    → includes done id ≡ false
    → missing done ds ≡ missing (id ∷ done) ds + count id ds
missing-cons id done [] h = omega arith
missing-cons id done (d ∷ ds) h =
    omega (arith, missing-cons_head id d done h, missing-cons id done ds h)

pub missing-zero :
    (done ds : List Str) → ((d : Str) → 1 ≤ count d ds → 1 ≤ count d done) → missing done ds ≡ 0
missing-zero done [] h = refl
missing-zero done (d ∷ ds) h =
    rw (count→includes d done (h d (count_self d ds)))
      (omega (arith, missing-zero done ds (λ d' k. h d' (omega arith))))

pub missing-zero_inv :
    (done ds : List Str) → missing done ds ≡ 0 → (d : Str) → 1 ≤ count d ds → 1 ≤ count d done
missing-zero_inv done [] h d k = absurd (omega arith)
missing-zero_inv done (x ∷ ds) h d k = elim (Bool-cases (str_eq x d)) [
  | inl e ↦
      let here : includes done x ≡ true = ground arith in
      rw (sym (str_eq→eq x d e)) (includes→count x done here)
  | inr e ↦
      let k' : 1 ≤ one_if (str_eq x d) + count d ds = k in
      let k'' : 1 ≤ one_if false + count d ds = rw e at k' in
      missing-zero_inv done ds (omega arith) d (omega arith)
]

-- The degrees and the queue agree: `value v` is the degree of the node `v`, and exactly the nodes of value
-- zero are in the queue or elsewhere (`base` counts those), once each.
pub record Holds (nodes : List Str) (base : Str → ℕ) (queue : List Str) (value : Str → ℕ)
    (deg : Degrees) : Type 0 where
  pub degree : (v : Str) → 1 ≤ count v nodes → deg v ≡ some (pos (value v))
  pub placed : (v : Str) → 1 ≤ count v nodes → value v ≡ 0 → base v + count v queue ≡ 1
  pub unplaced : (v : Str) → 1 ≤ count v nodes → 1 ≤ value v → base v + count v queue ≡ 0
  pub outside : (v : Str) → count v nodes ≡ 0 → base v + count v queue ≡ 0

decrement_lem : (n : ℕ) → decrement (some (pos (suc n))) ≡ pos n
unfolding decrement
decrement_lem n = refl

is_zero_lem : (n : ℕ) → is_zero (pos n) ≡ (n == 0)
unfolding is_zero
is_zero_lem zero = refl
is_zero_lem (suc n) = ground arith

one_if_refl : (n : Str) → one_if (str_eq n n) ≡ 1
one_if_refl n = rw (str_eq_refl n)

module _ (nodes : List Str) (base value : Str → ℕ) (enqueue : Str → List Str → List Str)
    (grows : (v w : Str) (queue : List Str)
      → count v (enqueue w queue) ≡ count v queue + one_if (str_eq w v)) where
  -- The relaxed neighbor loses one of its missing dependencies, and enters the queue with the last one.
  one-Holds :
      (n : Str) (ns queue : List Str) (deg : Degrees)
      → 1 ≤ count n nodes
      → Holds nodes base queue (λ v. value v + count v (n ∷ ns)) deg
      → Holds nodes base
          (if (value n + count n ns) == 0 then enqueue n queue else queue)
          (λ v. value v + count v ns)
          (set_degree deg n (pos (value n + count n ns)))
  one-Holds n ns queue deg k h = record {
    degree = λ v m. ground (arith, str_eq→eq n v, h.degree v m);
    placed = λ v m z. ground (arith, str_eq→eq n v, grows v n queue, h.placed v m, h.unplaced v m);
    unplaced = λ v m z. ground (arith, str_eq→eq n v, grows v n queue, h.unplaced v m);
    outside = λ v m. ground (arith, str_eq→eq n v, grows v n queue, h.outside v m);
  }

  -- The inner loop: all the neighbors have lost a missing dependency.
  pub relax-Holds :
      (ns queue : List Str) (deg : Degrees)
      → ((v : Str) → 1 ≤ count v ns → 1 ≤ count v nodes)
      → Holds nodes base queue (λ v. value v + count v ns) deg
      → Holds nodes base
          (relax enqueue ns deg queue).1
          (λ v. value v + 0)
          (relax enqueue ns deg queue).0
  unfolding relax
  relax-Holds [] queue deg inside h = h
  relax-Holds (n ∷ ns) queue deg inside h =
      let here = inside n (count_self n ns) in
      let next : decrement (deg n) ≡ pos (value n + count n ns) =
        ap decrement (
          h.degree n here
          ∙ ap (λ (k : ℕ). some (pos k)) {y = suc (value n + count n ns)}
              (omega (arith, one_if_refl n)))
        ∙ decrement_lem (value n + count n ns) in
      rw (next, relax)
        (rw (is_zero_lem (value n + count n ns))
          (relax-Holds ns _ _ (λ v k. inside v (omega arith)) (one-Holds n ns queue deg here h)))
