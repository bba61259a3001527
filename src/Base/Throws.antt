-- ===== src/Base/Throws.antt =====
-- A computation that may throw: `err` carries what was thrown.
use mathlib.Core.Path.{◌≡◌, refl}
use mathlib.Core.Bool.{Bool, true, false}
use mathlib.Core.List.{List, [], ◌∷◌}

pub data Result (E : Type 0) (A : Type 0) : Type 0 where
  ok : A → Result E A
  err : E → Result E A

-- `if (bad) throw e`.
abbrev pub throw_if : {E : Type 0} → Bool → E → Result E (Unit {0})
throw_if true e = err e
throw_if false e = ok tt

infixl 5 ◌>>=◌ ◌>>◌
abbrev pub ◌>>=◌ : {E A B : Type 0} → Result E A → (A → Result E B) → Result E B
ok a >>= f = f a
err e >>= f = err e

abbrev pub ◌>>◌ : {E B : Type 0} → Result E (Unit {0}) → Result E B → Result E B
m >> k = m >>= λ _. k

-- `xs.map(f)` where `f` may throw.
abbrev pub map_result : {E A B : Type 0} → (A → Result E B) → List A → Result E (List B)
map_result f [] = ok []
map_result f (x ∷ xs) = f x >>= λ y. map_result f xs >>= λ ys. ok (y ∷ ys)

pub map_result-cons :
    {E A B : Type 0} (f : A → Result E B) (x : A) (xs : List A) {ys : List B}
    → map_result f (x ∷ xs) ≡ ok ys
    → (y : B) × (zs : List B) × (f x ≡ ok y) × (map_result f xs ≡ ok zs) × (ys ≡ y ∷ zs)
map_result-cons {E} {A} {B} f x xs {ys} h = go (f x) (map_result f xs) refl refl h
  where
    go :
        (r : Result E B) (q : Result E (List B))
        → f x ≡ r
        → map_result f xs ≡ q
        → (r >>= λ y. q >>= λ zs. ok (y ∷ zs)) ≡ ok ys
        → (y : B) × (zs : List B) × (f x ≡ ok y) × (map_result f xs ≡ ok zs) × (ys ≡ y ∷ zs)
    go (ok y) (ok zs) e e' h = (y, zs, e, e', cc)
    go (ok y) (err x) e e' h = cc
    go (err x) q e e' h = cc

-- Inversion of a chain that does not throw.
pub bind-ok :
    {E A B : Type 0} (m : Result E A) (f : A → Result E B) {b : B}
    → (m >>= f) ≡ ok b
    → (a : A) × (m ≡ ok a) × (f a ≡ ok b)
bind-ok (ok a) f h = (a, refl, h)
bind-ok (err e) f h = cc

pub then-ok :
    {E B : Type 0} (b : Bool) (e : E) (k : Result E B) {v : B}
    → (throw_if b e >> k) ≡ ok v
    → (b ≡ false) × (k ≡ ok v)
then-ok true e k h = cc
then-ok false e k h = (refl, h)
