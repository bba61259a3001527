-- ===== src/Power/Claims/Refinement.antt =====
-- The map of sets behaves as the set of occurrences.
use atlas_manager.Base.{
  ◌≡◌, refl, sym, ap, ◌∙◌, inl, inr, Bool, true, false, not, ◌||◌, ◌&&◌, List, [], ◌∷◌, ◌++◌, arith,
  Str, str_eq, str_eq→eq, str_eq_symm, str_lt, Result, ok, err, includes, any, all, keep,
  Bool-cases, and_true, if◌then◌else◌,
}
use atlas_manager.Base.Platform.{Dates}
use atlas_manager.Power.Tick.{Occurrence}
use atlas_manager.Power.Interval.{IntervalError, create_occurrence}
use atlas_manager.Power.Claims.{
  Claims, Call, claim, prune_completed_through, pruned, unchanged, has_time, has_claim, add_claim,
  is_through, has_wakes, claim_occurrence, prune_claims, claim_checked, prune_checked, run_call,
  run_calls,
}
use atlas_manager.Power.Claims.Spec.{
  ClaimSet, member, spec_claim, spec_prune, spec_claim_checked, spec_prune_checked, spec_call,
  spec_calls,
}

-- Each time has one entry.
abbrev pub OneEntry : Claims → Type 0
OneEntry [] = Unit
OneEntry (e ∷ rest) = (has_time rest e.0 ≡ false) × OneEntry rest

-- The map holds the same claims as the set, and the same times.
record Holds (claims : Claims) (set : ClaimSet) : Type 0 where
  one_entry : OneEntry claims
  filled : all has_wakes claims ≡ true
  same_claims : (s w : Str) → has_claim claims s w ≡ member set s w
  same_times : (p : Str → Bool) → any (λ e. p e.0) claims ≡ any (λ q. p q.0) set

no_time : (claims : Claims) (s w : Str) → has_time claims s ≡ false → has_claim claims s w ≡ false
unfolding has_claim
no_time [] s w h = refl
no_time ((t, wakes) ∷ rest) s w h = ground (arith, no_time rest s w, h)

includes-snoc :
    (xs : List Str) (x y : Str) → includes (xs ++ (x ∷ [])) y ≡ (includes xs y || str_eq x y)
includes-snoc [] x y = ground arith
includes-snoc (z ∷ xs) x y = ground (arith, includes-snoc xs x y)

apart : (t s s' : Str) → str_eq t s ≡ false → str_eq t s' ≡ true → str_eq s s' ≡ false
apart t s s' e k = elim (Bool-cases (str_eq s s')) [
  | inl h ↦
      let same : str_eq t s ≡ str_eq t s' = ap (str_eq t) (str_eq→eq s s' h) in
      absurd (ground (arith, e, k, same))
  | inr h ↦ h
]

has_claim-add_claim :
    (claims : Claims) (s w s' w' : Str)
    → has_claim (add_claim claims s w) s' w'
      ≡ (has_claim claims s' w' || (str_eq s s' && str_eq w w'))
unfolding has_claim add_claim
has_claim-add_claim [] s w s' w' = ground arith
has_claim-add_claim ((t, wakes) ∷ rest) s w s' w' = elim (Bool-cases (str_eq t s)) [
  | inl e ↦
      let link : str_eq t s' ≡ str_eq s s' = ap (λ x. str_eq x s') (str_eq→eq t s e) in
      rw (e, includes-snoc wakes w w') (ground (arith, link))
  | inr e ↦ ground (arith, e, apart t s s' e, has_claim-add_claim rest s w s' w')
]

any-add_claim :
    (p : Str → Bool) (claims : Claims) (s w : Str)
    → any (λ e. p e.0) (add_claim claims s w) ≡ (p s || any (λ e. p e.0) claims)
unfolding add_claim
any-add_claim p [] s w = refl
any-add_claim p ((t, wakes) ∷ rest) s w = elim (Bool-cases (str_eq t s)) [
  | inl e ↦ let link : p t ≡ p s = ap p (str_eq→eq t s e) in rw e (ground (arith, link))
  | inr e ↦ ground (arith, e, any-add_claim p rest s w)
]

has_time-add_claim :
    (claims : Claims) (s w t : Str)
    → has_time (add_claim claims s w) t ≡ (str_eq s t || has_time claims t)
has_time-add_claim claims s w t = any-add_claim (λ x. str_eq x t) claims s w

filled-snoc : (t : Str) (wakes : List Str) (w : Str) → has_wakes (t, wakes ++ (w ∷ [])) ≡ true
filled-snoc t [] w = refl
filled-snoc t (x ∷ wakes) w = refl

filled-add_claim :
    (claims : Claims) (s w : Str)
    → all has_wakes claims ≡ true
    → all has_wakes (add_claim claims s w) ≡ true
unfolding add_claim
filled-add_claim [] s w h = refl
filled-add_claim ((t, wakes) ∷ rest) s w h = elim (Bool-cases (str_eq t s)) [
  | inl e ↦ rw e (ground (arith, filled-snoc t wakes w, h))
  | inr e ↦ ground (arith, e, filled-add_claim rest s w, h)
]

OneEntry-add_claim :
    (claims : Claims) (s w : Str) → OneEntry claims → OneEntry (add_claim claims s w)
unfolding add_claim
OneEntry-add_claim [] s w h = (refl, tt)
OneEntry-add_claim ((t, wakes) ∷ rest) s w h = elim (Bool-cases (str_eq t s)) [
  | inl e ↦ rw e h
  | inr e ↦
      let other : str_eq s t ≡ false = str_eq_symm s t ∙ e in
      rw e
        (ground (arith, has_time-add_claim rest s w t, other, h.0), OneEntry-add_claim rest s w h.1)
]

none_and :
    {A : Type 0} (p q : A → Bool) (xs : List A)
    → any p xs ≡ false
    → any (λ x. p x && q x) xs ≡ false
none_and p q [] h = refl
none_and p q (x ∷ xs) h = ground (arith, none_and p q xs, h)

any-keep :
    {A : Type 0} (p q : A → Bool) (xs : List A) → any p (keep q xs) ≡ any (λ x. p x && q x) xs
any-keep p q [] = refl
any-keep p q (x ∷ xs) = ground (arith, any-keep p q xs)

module _ (cursor : Str) where
  any-prune :
      (p : Str → Bool) (claims : Claims)
      → all has_wakes claims ≡ true
      → any (λ e. p e.0) (keep (λ e. not (is_through cursor e) && has_wakes e) claims)
        ≡ any (λ e. p e.0 && str_lt cursor e.0) claims
  any-prune p [] h = refl
  any-prune p (e ∷ rest) h = ground (arith, any-prune p rest, h)

  has_claim-prune :
      (claims : Claims) (s w : Str)
      → OneEntry claims
      → all has_wakes claims ≡ true
      → has_claim (keep (λ e. not (is_through cursor e) && has_wakes e) claims) s w
        ≡ (has_claim claims s w && str_lt cursor s)
  unfolding has_claim
  has_claim-prune [] s w u h = refl
  has_claim-prune ((t, wakes) ∷ rest) s w u h =
      let filled : all has_wakes rest ≡ true =
        (and_true (has_wakes (t, wakes)) (all has_wakes rest) h).1 in
      let later = has_claim-prune rest s w u.1 filled in
      elim (Bool-cases (str_eq t s)) [
        | inl e ↦
            let link : str_lt cursor t ≡ str_lt cursor s = ap (str_lt cursor) (str_eq→eq t s e) in
            let once : has_time rest s ≡ false = ap (has_time rest) (sym (str_eq→eq t s e)) ∙ u.0 in
            ground (arith, e, link, no_time rest s w once, later, h)
        | inr e ↦ ground (arith, e, later)
      ]

  OneEntry-prune :
      (claims : Claims)
      → OneEntry claims
      → all has_wakes claims ≡ true
      → OneEntry (keep (λ e. not (is_through cursor e) && has_wakes e) claims)
        × (all has_wakes (keep (λ e. not (is_through cursor e) && has_wakes e) claims) ≡ true)
  OneEntry-prune [] u h = (tt, refl)
  OneEntry-prune (e ∷ rest) u h =
      let (first_filled, filled) = and_true (has_wakes e) (all has_wakes rest) h in
      let (once, full) = OneEntry-prune rest u.1 filled in
      let absent = any-prune (λ t. str_eq t e.0) rest filled in
      elim (Bool-cases (not (is_through cursor e) && has_wakes e)) [
        | inl k ↦ rw k (
          (absent ∙ none_and (λ x. str_eq x.0 e.0) (λ x. str_lt cursor x.0) rest u.0, once),
          ground (arith, first_filled, full),
        )
        | inr k ↦ rw k (once, full)
      ]

spec-member :
    (cursor : Str) (set : ClaimSet) (s w : Str)
    → member (keep (λ p. str_lt cursor p.0) set) s w ≡ (member set s w && str_lt cursor s)
spec-member cursor [] s w = refl
spec-member cursor ((t, x) ∷ set) s w = elim (Bool-cases (str_eq t s)) [
  | inl e ↦
      let link : str_lt cursor t ≡ str_lt cursor s = ap (str_lt cursor) (str_eq→eq t s e) in
      ground (arith, e, link, spec-member cursor set s w)
  | inr e ↦ ground (arith, e, spec-member cursor set s w)
]

prune-Holds :
    (cursor : Str) (claims : Claims) (set : ClaimSet)
    → Holds claims set
    → Holds (prune_claims claims cursor).0 (spec_prune set cursor).0
      × ((prune_claims claims cursor).1 ≡ (spec_prune set cursor).1)
prune-Holds cursor claims set h =
    let (once, full) = OneEntry-prune cursor claims h.one_entry h.filled in
    (
      record {
        one_entry = once;
        filled = full;
        same_claims = λ s w.
            has_claim-prune cursor claims s w h.one_entry h.filled
            ∙ ap (λ b. b && str_lt cursor s) (h.same_claims s w)
            ∙ sym (spec-member cursor set s w);
        same_times = λ p.
            any-prune cursor p claims h.filled
            ∙ h.same_times (λ t. p t && str_lt cursor t)
            ∙ sym (any-keep (λ q. p q.0) (λ q. str_lt cursor q.0) set);
      },
      ap (λ b. if b then pruned else unchanged) (h.same_times (λ t. not (str_lt cursor t))),
    )

claim-Holds :
    (s w : Str) (claims : Claims) (set : ClaimSet)
    → Holds claims set
    → Holds (claim_occurrence claims s w).0 (spec_claim set s w).0
      × ((claim_occurrence claims s w).1 ≡ (spec_claim set s w).1)
claim-Holds s w claims set h = elim (Bool-cases (member set s w)) [
  | inl e ↦ rw (h.same_claims s w, e) (h, refl)
  | inr e ↦
      rw (h.same_claims s w, e)
        (
          record {
            one_entry = OneEntry-add_claim claims s w h.one_entry;
            filled = filled-add_claim claims s w h.filled;
            same_claims =
                λ s' w'. ground (arith, has_claim-add_claim claims s w s' w', h.same_claims s' w');
            same_times = λ p. any-add_claim p claims s w ∙ ap (λ b. p s || b) (h.same_times p);
          },
          refl,
        )
]

claim_checked-Holds :
    (r : Result IntervalError Occurrence) (fails : Bool) (claims : Claims) (set : ClaimSet)
    → Holds claims set
    → Holds (claim_checked claims r fails).0 (spec_claim_checked set r fails).0
      × ((claim_checked claims r fails).1 ≡ (spec_claim_checked set r fails).1)
claim_checked-Holds (err e) fails claims set h = (h, refl)
claim_checked-Holds (ok o) true claims set h = (h, refl)
claim_checked-Holds (ok o) false claims set h =
    claim-Holds o.scheduled_for o.wake_scheduled_for claims set h

prune_checked-Holds :
    (cursor : Str) (fails : Bool) (claims : Claims) (set : ClaimSet)
    → Holds claims set
    → Holds (prune_checked claims cursor fails).0 (spec_prune_checked set cursor fails).0
      × ((prune_checked claims cursor fails).1 ≡ (spec_prune_checked set cursor fails).1)
prune_checked-Holds cursor true claims set h = (h, refl)
prune_checked-Holds cursor false claims set h = prune-Holds cursor claims set h

module _ (d : Dates) (fails : Bool) where
  call-Holds :
      (c : Call) (claims : Claims) (set : ClaimSet)
      → Holds claims set
      → Holds (run_call d fails claims c).0 (spec_call d fails set c).0
        × ((run_call d fails claims c).1 ≡ (spec_call d fails set c).1)
  unfolding run_call
  call-Holds (claim s w) claims set h =
      claim_checked-Holds (create_occurrence d s w) fails claims set h
  call-Holds (prune_completed_through cursor) claims set h =
      prune_checked-Holds cursor fails claims set h

  calls-Holds :
      (cs : List Call) (claims : Claims) (set : ClaimSet)
      → Holds claims set
      → run_calls d fails claims cs ≡ spec_calls d fails set cs
  unfolding run_calls
  calls-Holds [] claims set h = refl
  calls-Holds (c ∷ cs) claims set h =
      let (h', same) = call-Holds c claims set h in
      ap (λ r. r ∷ run_calls d fails (run_call d fails claims c).0 cs) same
      ∙ ap (λ rs. (spec_call d fails set c).1 ∷ rs)
          (calls-Holds cs (run_call d fails claims c).0 (spec_call d fails set c).0 h')

-- A new store answers every sequence of claims and prunings as a set of occurrences does, in which each is claimed
-- once and from which a pruning takes those up to its cursor.
pub run_calls-spec_calls :
    (d : Dates) (fails : Bool) (cs : List Call) → run_calls d fails [] cs ≡ spec_calls d fails [] cs
unfolding has_claim
run_calls-spec_calls d fails cs =
    calls-Holds d fails cs [] []
      (record { one_entry = tt; filled = refl; same_claims = λ s w. refl; same_times = λ p. refl })
