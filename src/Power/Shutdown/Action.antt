-- ===== src/Power/Shutdown/Action.antt =====
-- An asynchronous method that may throw: it changes the world and returns or throws. What was done before a
-- throw stays done.
use atlas_manager.Base.{◌≡◌, refl, Result, ok, err}

abbrev pub Action : Type 0 → Type 0 → Type 0 → Type 0
Action W E A = W → W × Result E A

module _ {W E : Type 0} where
  abbrev pub lift : {A : Type 0} → Result E A → Action W E A
  lift r w = (w, r)

  abbrev pub after : {A B : Type 0} → (A → Action W E B) → W × Result E A → W × Result E B
  after f (w, ok a) = f a w
  after f (w, err e) = (w, err e)

  infixl 5 ◌>>=◌ ◌>>◌
  abbrev pub ◌>>=◌ : {A B : Type 0} → Action W E A → (A → Action W E B) → Action W E B
  ◌>>=◌ m f w = after f (m w)

  abbrev pub ◌>>◌ : {A B : Type 0} → Action W E A → Action W E B → Action W E B
  m >> k = m >>= λ _. k

-- `try { return await m } catch { throw e }`.
abbrev pub or_else : {W E F A : Type 0} → F → W × Result E A → W × Result F A
or_else e (w, ok a) = (w, ok a)
or_else e (w, err x) = (w, err e)

-- The action does not lose the property of the world.
abbrev pub Keeps : {W E A : Type 0} → (W → Type 0) → Action W E A → Type 0
Keeps {W} P m = (w : W) → P w → P (m w).0

module _ {W E A B : Type 0} where
  pub >>=-ok :
      (m : Action W E A) (f : A → Action W E B) {w w' : W} {b : B}
      → (m >>= f) w ≡ (w', ok b)
      → (v : W) × (a : A) × (m w ≡ (v, ok a)) × (f a v ≡ (w', ok b))
  >>=-ok m f {w} {w'} {b} h = go (m w) refl h
    where
      go :
          (r : W × Result E A)
          → m w ≡ r
          → after f r ≡ (w', ok b)
          → (v : W) × (a : A) × (m w ≡ (v, ok a)) × (f a v ≡ (w', ok b))
      go (v, ok a) e h = (v, a, e, h)
      go (v, err x) e h = cc

  pub after-Keeps :
      (P : W → Type 0) (f : A → Action W E B) (r : W × Result E A)
      → P r.0
      → ((a : A) → Keeps P (f a))
      → P (after f r).0
  after-Keeps P f (w, ok a) h k = k a w h
  after-Keeps P f (w, err e) h k = h

  pub >>=-Keeps :
      (P : W → Type 0) (m : Action W E A) (f : A → Action W E B)
      → Keeps P m
      → ((a : A) → Keeps P (f a))
      → Keeps P (m >>= f)
  >>=-Keeps P m f h k w p = after-Keeps P f (m w) (h w p) k

pub or_else-ok :
    {W E F A : Type 0} (e : F) (r : W × Result E A) {w : W} {a : A}
    → or_else e r ≡ (w, ok a)
    → r ≡ (w, ok a)
or_else-ok e (w, ok a) h = cc
or_else-ok e (w, err x) h = cc

pub or_else-world :
    {W E F A : Type 0} (P : W → Type 0) (e : F) (r : W × Result E A) → P r.0 → P (or_else e r).0
or_else-world P e (w, ok a) h = h
or_else-world P e (w, err x) h = h
