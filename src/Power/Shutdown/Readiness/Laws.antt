-- ===== src/Power/Shutdown/Readiness/Laws.antt =====
-- When the readiness is approved.
use atlas_manager.Power.Shutdown.Readiness.Collected.{
  Passes, plain_blocker-Passes, All-append, map_result-Passes, service_blockers-Passes,
  state_blockers-Passes, state_blockers-ready, service_blockers-ready, sort_blockers-not_empty,
  contradicts-not_empty,
}
use mathlib.Core.Path.{subst}
use atlas_manager.Base.{
  ◌≡◌, refl, sym, ◌∙◌, ◌↔◌, Bool, true, false, List, [], ◌∷◌, ◌++◌, Str, Result, ok, err, All,
  if◌then◌else◌,
}
use atlas_manager.Base.Int.{ℤ}
use atlas_manager.Base.Values.{Value}
use atlas_manager.Base.Sort.{sort_by}
use atlas_manager.Base.Platform.{Dates, is_canonical_timestamp}
use atlas_manager.Power.Tick.{Occurrence}
use atlas_manager.Power.Interval.{create_occurrence}
use atlas_manager.Power.Shutdown.Blocker.{
  Area, Blocker, BlockerCode, approved, rejected, ReadinessDecision, create_decision, sort_blockers,
  plain_blocker,
}
use atlas_manager.Power.Shutdown.Action.{after, lift}
use atlas_manager.Power.Shutdown.Plan.{is_approved}
use atlas_manager.Power.Shutdown.Readiness.{
  ready, Reader, Readers, EvaluationError, is_before, is_at_or_after, is_not_empty,
  service_blockers, state_blockers, collect_blockers, decide_with, reject_with, decide_collected,
  evaluate_confirmed, evaluate_valid, evaluate_at, occurrence_of,
}

-- A valid occurrence at a time stamp.
abbrev pub IsDue : Dates → Occurrence → Str → Type 0
IsDue d o at =
    (create_occurrence d o.scheduled_for o.wake_scheduled_for ≡ ok o)
    × (is_canonical_timestamp d (Value.string at) ≡ true)

module _ (d : Dates) (compare : Str → Str → ℤ) (o : Occurrence) (at : Str)
    (due : IsDue d o at) where
  decide_with-rejected :
      (bs : List Blocker)
      → All (Passes d) bs
      → is_not_empty bs ≡ true
      → (f : ReadinessDecision) × (decide_with d compare o at rejected bs ≡ ok f)
        × (is_approved f ≡ false)
  unfolding create_decision
  decide_with-rejected bs h k = (
    record {
      occurrence = o;
      evaluated_at = at;
      outcome = rejected;
      blockers = sort_blockers d compare bs;
    },
    rw
        (
          due.0,
          due.1,
          map_result-Passes d bs h,
          contradicts-not_empty (sort_blockers d compare bs)
              (sort_blockers-not_empty d compare bs ∙ k),
        )
        refl,
    refl,
  )

  decide_with-approved :
      (f : ReadinessDecision) × (decide_with d compare o at approved [] ≡ ok f)
      × (is_approved f ≡ true)
  unfolding create_decision sort_blockers sort_by
  decide_with-approved = (
    record { occurrence = o; evaluated_at = at; outcome = approved; blockers = [] },
    rw (due.0, due.1) refl,
    refl,
  )

append-nil_iff : {A : Type 0} (xs ys : List A) → (xs ++ ys ≡ []) ↔ ((xs ≡ []) × (ys ≡ []))
append-nil_iff [] ys = (λ e. (refl, e), λ e. e.1)
append-nil_iff (x ∷ xs) ys = (λ e. cc, λ e. cc (e.0))

module _ (d : Dates) (compare : Str → Str → ℤ) {W : Type 0} (readers : Readers W)
    (confirmation : Reader W Bool) (o : Occurrence) (at : Str) where
  -- Every reader, read after the ones before it, says that nothing is in the way.
  abbrev pub AllReady : W → Type 0
  AllReady w =
      let s = readers.services o at w in
      let t = readers.active_tasks o at s.0 in
      let b = readers.backups o at t.0 in
      let f = readers.filesystem o at b.0 in
      (s.1 ≡ ok [])
      × (t.1 ≡ ok ready)
      × (b.1 ≡ ok ready)
      × (f.1 ≡ ok ready)
      × ((readers.event_recording o at f.0).1 ≡ ok ready)

  -- The time is due and before the wake time, the shutdown is confirmed, and nothing is in the way.
  abbrev pub IsClear : W → Type 0
  IsClear w =
      (is_before (d.parse at) (d.parse o.scheduled_for) ≡ false)
      × (is_at_or_after (d.parse at) (d.parse o.wake_scheduled_for) ≡ false)
      × ((confirmation o at w).1 ≡ ok true)
      × AllReady (confirmation o at w).0

  collect_blockers-Passes : (w : W) → All (Passes d) (collect_blockers d compare readers o at w).1
  unfolding collect_blockers
  collect_blockers-Passes w =
      let s = readers.services o at w in
      let t = readers.active_tasks o at s.0 in
      let b = readers.backups o at t.0 in
      let f = readers.filesystem o at b.0 in
      let e = readers.event_recording o at f.0 in
      All-append (Passes d) (service_blockers d compare s.1) _
        (service_blockers-Passes d compare s.1)
        (All-append (Passes d) (state_blockers d compare Area.active_tasks t.1) _
          (state_blockers-Passes d compare Area.active_tasks t.1)
          (All-append (Passes d) (state_blockers d compare Area.backups b.1) _
            (state_blockers-Passes d compare Area.backups b.1)
            (All-append (Passes d) (state_blockers d compare Area.filesystem f.1) _
              (state_blockers-Passes d compare Area.filesystem f.1)
              (state_blockers-Passes d compare Area.event_recording e.1))))

  collect_blockers-AllReady :
      (w : W) → ((collect_blockers d compare readers o at w).1 ≡ []) ↔ AllReady w
  unfolding collect_blockers
  collect_blockers-AllReady w =
      let s = readers.services o at w in
      let t = readers.active_tasks o at s.0 in
      let b = readers.backups o at t.0 in
      let f = readers.filesystem o at b.0 in
      let e = readers.event_recording o at f.0 in
      let is = service_blockers-ready d compare s.1 in
      let it = state_blockers-ready d compare Area.active_tasks t.1 in
      let ib = state_blockers-ready d compare Area.backups b.1 in
      let if' = state_blockers-ready d compare Area.filesystem f.1 in
      let ie = state_blockers-ready d compare Area.event_recording e.1 in
      let a1 = append-nil_iff (service_blockers d compare s.1) _ in
      let a2 = append-nil_iff (state_blockers d compare Area.active_tasks t.1) _ in
      let a3 = append-nil_iff (state_blockers d compare Area.backups b.1) _ in
      let a4 =
        append-nil_iff (state_blockers d compare Area.filesystem f.1)
          (state_blockers d compare Area.event_recording e.1) in
      (
        λ h.
            let (h1, k1) = a1.0 h in
            let (h2, k2) = a2.0 k1 in
            let (h3, k3) = a3.0 k2 in
            let (h4, h5) = a4.0 k3 in (is.0 h1, it.0 h2, ib.0 h3, if'.0 h4, ie.0 h5),
        λ (h1, h2, h3, h4, h5).
            a1.1 (is.1 h1, a2.1 (it.1 h2, a3.1 (ib.1 h3, a4.1 (if'.1 h4, ie.1 h5)))),
      )

  -- A decision is returned, and it is an approval exactly under the condition.
  abbrev Decides : Result EvaluationError ReadinessDecision → Type 0 → Type 0
  Decides r C = (f : ReadinessDecision) × (r ≡ ok f) × ((is_approved f ≡ true) ↔ C)

  rejects-Decides :
      (bs : List Blocker) (C : Type 0)
      → IsDue d o at
      → All (Passes d) bs
      → is_not_empty bs ≡ true
      → (C → ⊥)
      → Decides (decide_with d compare o at rejected bs) C
  rejects-Decides bs C due h k n =
      let (f, e, a) = decide_with-rejected d compare o at due bs h k in
      (f, e, (λ x. cc (x, a), λ c. absurd (n c)))

  reject_with-Decides :
      (c : BlockerCode) (C : Type 0)
      → IsDue d o at
      → (C → ⊥)
      → Decides (reject_with d compare o at c) C
  reject_with-Decides c C due n =
      rejects-Decides (plain_blocker Area.confirmation c ∷ []) C due
        (plain_blocker-Passes d Area.confirmation c, tt) refl n

  decide_collected-Decides :
      (w : W) (bs : List Blocker)
      → IsDue d o at
      → All (Passes d) bs
      → Decides (decide_collected d compare o at (w, bs)).1 (bs ≡ [])
  decide_collected-Decides w [] due h =
      let (f, e, a) = decide_with-approved d compare o at due in (f, e, (λ x. refl, λ c. a))
  decide_collected-Decides w (b ∷ bs) due h =
      rejects-Decides (b ∷ bs) ((b ∷ bs) ≡ []) due h refl (λ e. cc (e))

  Decides-iff :
      (r : Result EvaluationError ReadinessDecision) (C D : Type 0)
      → Decides r C
      → (C → D)
      → (D → C)
      → Decides r D
  Decides-iff r C D (f, e, i) to from = (f, e, (λ h. to (i.0 h), λ k. i.1 (from k)))

  evaluate_confirmed-Decides :
      (r : W × Result (Unit {0}) Bool)
      → IsDue d o at
      → Decides (evaluate_confirmed d compare readers o at r).1 ((r.1 ≡ ok true) × AllReady r.0)
  evaluate_confirmed-Decides (w, err e) due =
      reject_with-Decides BlockerCode.confirmation_unavailable _ due (λ c. cc (c.0))
  evaluate_confirmed-Decides (w, ok false) due =
      reject_with-Decides BlockerCode.not_confirmed _ due (λ c. cc (c.0))
  evaluate_confirmed-Decides (w, ok true) due =
      let got = collect_blockers d compare readers o at w in
      let i = collect_blockers-AllReady w in
      Decides-iff (decide_collected d compare o at got).1 (got.1 ≡ []) _
        (decide_collected-Decides got.0 got.1 due (collect_blockers-Passes w)) (λ h. (refl, i.0 h))
        (λ k. i.1 (k.1))

  evaluate_valid-IsClear :
      (w : W)
      → IsDue d o at
      → Decides (evaluate_valid d compare readers confirmation at o w).1 (IsClear w)
  evaluate_valid-IsClear w due =
      go (is_before (d.parse at) (d.parse o.scheduled_for))
        (is_at_or_after (d.parse at) (d.parse o.wake_scheduled_for))
    where
      go :
          (a b : Bool)
          → Decides
              ((if a
                  then lift (reject_with d compare o at BlockerCode.not_due)
                  else if b
                  then lift (reject_with d compare o at BlockerCode.stale)
                  else λ w. evaluate_confirmed d compare readers o at (confirmation o at w))
                w).1
              ((a ≡ false)
                × (b ≡ false)
                × ((confirmation o at w).1 ≡ ok true)
                × AllReady (confirmation o at w).0)
      go true b = reject_with-Decides BlockerCode.not_due _ due (λ c. cc (c.0))
      go false true = reject_with-Decides BlockerCode.stale _ due (λ c. cc (c.1))
      go false false =
          Decides-iff _ _ _ (evaluate_confirmed-Decides (confirmation o at w) due)
            (λ h. (refl, refl, h.0, h.1)) (λ k. (k.2, k.3))

  -- On a valid occurrence and a time stamp the evaluation returns a decision, whatever the readers do. It is an
  -- approval exactly if the shutdown is due, its wake time has not come, it is confirmed and every reader says that
  -- nothing is in the way: a reader that throws or gives a blocker that is not valid leads to a rejection.
  pub evaluate_at-approved :
      (w : W)
      → IsDue d o at
      → (f : ReadinessDecision) × ((evaluate_at d compare readers confirmation o at w).1 ≡ ok f)
        × ((is_approved f ≡ true) ↔ IsClear w)
  unfolding evaluate_at
  evaluate_at-approved w due =
      subst
        (λ c.
          Decides (after (evaluate_valid d compare readers confirmation at) (w, occurrence_of c)).1
            (IsClear w))
        (sym due.0) (evaluate_valid-IsClear w due)
