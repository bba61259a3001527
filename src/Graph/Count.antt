-- ===== src/Graph/Count.antt =====
-- How often a string occurs in a list. Facts about sets and permutations of service identifiers are
-- facts about these numbers.
use atlas_manager.Base.{
  ◌⊎◌, inl, inr, ℕ, suc, ◌+◌, ◌≤◌, ◌≡◌, refl, Bool, true, false, List, [], ◌∷◌, ◌++◌, arith, Str,
  str_eq, str_eq→eq, str_eq_refl, if◌then◌else◌, length, includes, Bool-cases, keep,
}

abbrev pub one_if : Bool → ℕ
one_if true = 1
one_if false = 0

abbrev pub count : Str → List Str → ℕ
count v [] = 0
count v (x ∷ xs) = one_if (str_eq x v) + count v xs

pub count-append : (v : Str) (xs ys : List Str) → count v (xs ++ ys) ≡ count v xs + count v ys
count-append v [] ys = omega arith
count-append v (x ∷ xs) ys = omega (arith, count-append v xs ys)

pub includes→count : (v : Str) (xs : List Str) → includes xs v ≡ true → 1 ≤ count v xs
includes→count v [] h = cc
includes→count v (x ∷ xs) h = ground (arith, includes→count v xs)

pub count→includes : (v : Str) (xs : List Str) → 1 ≤ count v xs → includes xs v ≡ true
count→includes v [] h = absurd (omega arith)
count→includes v (x ∷ xs) h = ground (arith, count→includes v xs)

pub not-includes→count : (v : Str) (xs : List Str) → includes xs v ≡ false → count v xs ≡ 0
not-includes→count v [] h = refl
not-includes→count v (x ∷ xs) h = ground (arith, not-includes→count v xs)

pub count_self : (v : Str) (xs : List Str) → 1 ≤ count v (v ∷ xs)
count_self v xs = ground (arith, str_eq_refl v)

pub one_if_le : (b : Bool) → one_if b ≤ 1
one_if_le b = ground arith

-- The list without one occurrence of `v`.
remove : Str → List Str → List Str
remove v [] = []
remove v (x ∷ xs) = let rest = x ∷ remove v xs in if str_eq x v then xs else rest

count-remove :
    (v w : Str) (xs : List Str)
    → 1 ≤ count v xs
    → count w (remove v xs) + one_if (str_eq v w) ≡ count w xs
unfolding remove
count-remove v w [] h = absurd (omega arith)
count-remove v w (x ∷ xs) h = elim (Bool-cases (str_eq x v)) [
  | inl e ↦ rw e (rw (str_eq→eq x v e) (omega arith))
  | inr e ↦
      let h' : 1 ≤ one_if (str_eq x v) + count v xs = h in
      let h'' : 1 ≤ one_if false + count v xs = rw e at h' in
      rw e (omega (arith, count-remove v w xs (omega arith)))
]

length-remove : (v : Str) (xs : List Str) → 1 ≤ count v xs → suc (length (remove v xs)) ≡ length xs
unfolding remove
length-remove v [] h = absurd (omega arith)
length-remove v (x ∷ xs) h = ground (arith, length-remove v xs)

-- A list that repeats nothing of another more often is not longer.
pub length_le_of_count :
    (xs ys : List Str) → ((v : Str) → count v xs ≤ count v ys) → length xs ≤ length ys
length_le_of_count [] ys h = omega arith
length_le_of_count (x ∷ xs) ys h =
    let here : 1 ≤ count x ys = omega (arith, count_self x xs, h x) in
    omega (
      arith,
      length-remove x ys here,
      length_le_of_count xs (remove x ys) (λ v. omega (arith, h v, count-remove x v ys here)),
    )

-- And if it is as long, it holds everything of the other.
pub count_le_of_length :
    (xs ys : List Str)
    → ((v : Str) → count v xs ≤ count v ys)
    → length xs ≡ length ys
    → (v : Str) → count v ys ≤ count v xs
count_le_of_length [] [] h e v = omega arith
count_le_of_length [] (y ∷ ys) h e v = absurd (omega arith)
count_le_of_length (x ∷ xs) ys h e v =
    let here : 1 ≤ count x ys = omega (arith, count_self x xs, h x) in
    omega (
      arith,
      count-remove x v ys here,
      count_le_of_length xs (remove x ys) (λ w. omega (arith, h w, count-remove x w ys here))
          (omega (arith, length-remove x ys here)) v,
    )

pub count-keep :
    (p : Str → Bool) (v : Str) (xs : List Str)
    → count v (keep p xs) ≡ (if p v then count v xs else 0)
count-keep p v [] = ground arith
count-keep p v (x ∷ xs) = elim (Bool-cases (str_eq x v)) [
  | inl e ↦ rw (str_eq→eq x v e) (ground (arith, count-keep p v xs))
  | inr e ↦ ground (arith, count-keep p v xs)
]

pub member-cons : (w x : Str) (xs : List Str) → 1 ≤ count w (x ∷ xs) → (x ≡ w) ⊎ (1 ≤ count w xs)
member-cons w x xs h = elim (Bool-cases (str_eq x w)) [
  | inl e ↦ inl (str_eq→eq x w e)
  | inr e ↦ inr (ground arith)
]
