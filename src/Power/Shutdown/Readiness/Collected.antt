-- ===== src/Power/Shutdown/Readiness/Collected.antt =====
-- The blockers that the readers report pass their checks.
use mathlib.Core.Path.{subst}
use atlas_manager.Base.Pattern.{is_slug}
use atlas_manager.Base.{
  map_result-cons, ◌≡◌, refl, sym, ap, ◌∙◌, ◌↔◌, inl, inr, Bool, true, false, not, ◌||◌, List, [],
  ◌∷◌, ◌++◌, Str, Result, ok, err, ◌>>◌, throw_if, map_result, All, Bool-cases, ltb,
}
use atlas_manager.Base.Int.{ℤ}
use atlas_manager.Base.Values.{Value}
use atlas_manager.Base.Sort.{insert_by, sort_by}
use atlas_manager.Base.Platform.{Dates, is_canonical_timestamp}
use atlas_manager.Power.Shutdown.Blocker.{
  Area, Blocker, BlockerCode, BlockerError, rejected, create_blocker, sort_blockers,
  compare_blockers, is_negative, plain_blocker, contradicts, is_present_and,
}
use atlas_manager.Power.Shutdown.Readiness.{
  ReadinessState, ready, tasks_blocked, blocked, is_not_empty, service_blockers, checked_services,
  checked_blocker, blocker_or, tasks_blocker, state_blockers,
}

-- A blocker that its check accepts.
abbrev pub Passes : Dates → Blocker → Type 0
Passes d b = create_blocker d b ≡ ok b

create_blocker-eq : (d : Dates) (b : Blocker) {c : Blocker} → create_blocker d b ≡ ok c → c ≡ b
unfolding create_blocker
create_blocker-eq d b h =
    go (is_present_and (λ s. not (is_slug s)) b.service_id)
      (is_present_and (λ s. not (is_canonical_timestamp d (Value.string s))) b.first_required_at)
      (is_present_and (λ n. ltb n 1 || ltb 10000 n) b.active_task_count) h
  where
    go :
        (x y z : Bool) {c : Blocker}
        → (throw_if x BlockerError.invalid_service_id
            >> (throw_if y BlockerError.invalid_timestamp
                >> (throw_if z BlockerError.invalid_task_count >> ok b)))
          ≡ ok c
        → c ≡ b
    go true y z h = cc
    go false true z h = cc
    go false false true h = cc
    go false false false h = cc

create_blocker-Passes :
    (d : Dates) (b : Blocker) {c : Blocker} → create_blocker d b ≡ ok c → Passes d c
create_blocker-Passes d b h = subst (Passes d) (sym (create_blocker-eq d b h)) (sym-ok d b h)
  where
    sym-ok : (d : Dates) (b : Blocker) {c : Blocker} → create_blocker d b ≡ ok c → Passes d b
    sym-ok d b h = h ∙ ap ok (create_blocker-eq d b h)

pub plain_blocker-Passes : (d : Dates) (a : Area) (c : BlockerCode) → Passes d (plain_blocker a c)
unfolding create_blocker
plain_blocker-Passes d a c = refl

pub All-append :
    {A : Type 0} (P : A → Type 0) (xs ys : List A) → All P xs → All P ys → All P (xs ++ ys)
All-append P [] ys h k = k
All-append P (x ∷ xs) ys h k = (h.0, All-append P xs ys h.1 k)

pub map_result-Passes :
    (d : Dates) (bs : List Blocker) → All (Passes d) bs → map_result (create_blocker d) bs ≡ ok bs
map_result-Passes d [] h = refl
map_result-Passes d (b ∷ bs) h = rw (h.0, map_result-Passes d bs h.1)

created-Passes :
    (d : Dates) (bs : List Blocker) {cs : List Blocker}
    → map_result (create_blocker d) bs ≡ ok cs
    → All (Passes d) cs
created-Passes d [] {cs} h = subst (All (Passes d)) (same h) tt
  where
    same : ◌≡◌ {A = Result BlockerError (List Blocker)} (ok []) (ok cs) → [] ≡ cs
    same h = cc
created-Passes d (b ∷ bs) h =
    let (y, ys, e, k, q) = map_result-cons (create_blocker d) b bs h in
    subst (All (Passes d)) (sym q) (create_blocker-Passes d b e, created-Passes d bs k)

module _ (d : Dates) (compare : Str → Str → ℤ) where
  pub service_blockers-Passes :
      (r : Result (Unit {0}) (List Blocker)) → All (Passes d) (service_blockers d compare r)
  service_blockers-Passes (err e) =
      (plain_blocker-Passes d Area.services BlockerCode.service_readiness_unavailable, tt)
  service_blockers-Passes (ok bs) = go (map_result (create_blocker d) bs) refl
    where
      go :
          (r : Result BlockerError (List Blocker))
          → map_result (create_blocker d) bs ≡ r
          → All (Passes d) (checked_services d compare r)
      go (ok cs) e = created-Passes d bs e
      go (err x) e =
          (plain_blocker-Passes d Area.services BlockerCode.service_readiness_unavailable, tt)

  blocker_or-Passes :
      (a : Area) (b : Blocker)
      → All (Passes d) (blocker_or d compare a b) × (is_not_empty (blocker_or d compare a b) ≡ true)
  blocker_or-Passes a b = go (create_blocker d b) refl
    where
      go :
          (r : Result BlockerError Blocker)
          → create_blocker d b ≡ r
          → All (Passes d) (checked_blocker d compare a r)
            × (is_not_empty (checked_blocker d compare a r) ≡ true)
      go (ok c) e = ((create_blocker-Passes d b e, tt), refl)
      go (err x) e = ((plain_blocker-Passes d a BlockerCode.readiness_dependency_failed, tt), refl)

  pub state_blockers-Passes :
      (a : Area) (r : Result (Unit {0}) ReadinessState)
      → All (Passes d) (state_blockers d compare a r)
  state_blockers-Passes a (err e) =
      (plain_blocker-Passes d a BlockerCode.readiness_dependency_failed, tt)
  state_blockers-Passes a (ok ready) = tt
  state_blockers-Passes a (ok (tasks_blocked n)) =
      (blocker_or-Passes a (tasks_blocker d compare n)).0
  state_blockers-Passes a (ok (blocked b c)) = (blocker_or-Passes a (plain_blocker b c)).0

  -- A reader that is ready is the one that has no blockers.
  pub state_blockers-ready :
      (a : Area) (r : Result (Unit {0}) ReadinessState)
      → (state_blockers d compare a r ≡ []) ↔ (r ≡ ok ready)
  state_blockers-ready a r = (to r, λ e. ap (state_blockers d compare a) e)
    where
      filled : (xs : List Blocker) → is_not_empty xs ≡ true → xs ≡ [] → ⊥
      filled xs h e = cc (ap is_not_empty e)

      to : (r : Result (Unit {0}) ReadinessState) → state_blockers d compare a r ≡ [] → r ≡ ok ready
      to (err e) h = cc
      to (ok ready) h = refl
      to (ok (tasks_blocked n)) h =
          absurd (filled _ (blocker_or-Passes a (tasks_blocker d compare n)).1 h)
      to (ok (blocked b c)) h = absurd (filled _ (blocker_or-Passes a (plain_blocker b c)).1 h)

  pub service_blockers-ready :
      (r : Result (Unit {0}) (List Blocker)) → (service_blockers d compare r ≡ []) ↔ (r ≡ ok [])
  service_blockers-ready r = (to r, λ e. ap (service_blockers d compare) e)
    where
      to : (r : Result (Unit {0}) (List Blocker)) → service_blockers d compare r ≡ [] → r ≡ ok []
      to (err e) h = cc
      to (ok []) h = refl
      to (ok (b ∷ bs)) h = absurd (go (map_result (create_blocker d) (b ∷ bs)) refl h)
        where
          go :
              (q : Result BlockerError (List Blocker))
              → map_result (create_blocker d) (b ∷ bs) ≡ q
              → checked_services d compare q ≡ []
              → ⊥
          go (err x) e h = cc
          go (ok cs) e h =
              let (y, ys, e', k, q) = map_result-cons (create_blocker d) b bs e in cc (q, h)

insert_by-not_empty :
    {A : Type 0} (before : A → A → Bool) (x : A) (xs : List A)
    → is_not_empty (insert_by before x xs) ≡ true
unfolding insert_by
insert_by-not_empty before x [] = refl
insert_by-not_empty before x (y ∷ ys) = elim (Bool-cases (before y x)) [
  | inl e ↦ rw e refl
  | inr e ↦ rw e refl
]

-- A sort keeps a list from being empty.
pub sort_blockers-not_empty :
    (d : Dates) (compare : Str → Str → ℤ) (bs : List Blocker)
    → is_not_empty (sort_blockers d compare bs) ≡ is_not_empty bs
unfolding sort_blockers sort_by insert_by
sort_blockers-not_empty d compare [] = refl
sort_blockers-not_empty d compare (b ∷ bs) =
    insert_by-not_empty (λ l r. is_negative (compare_blockers d compare l r)) b
      (sort_by (λ l r. is_negative (compare_blockers d compare l r)) bs)

pub contradicts-not_empty :
    (xs : List Blocker) → is_not_empty xs ≡ true → contradicts rejected xs ≡ false
contradicts-not_empty [] h = cc
contradicts-not_empty (x ∷ xs) h = refl
