-- ===== src/Power/Shutdown/Readiness/Keeps.antt =====
-- What an evaluation of the readiness leaves alone.
use atlas_manager.Base.{Bool, true, false, Str, Result, ok, err, if◌then◌else◌}
use atlas_manager.Base.Int.{ℤ}
use atlas_manager.Base.Platform.{Dates}
use atlas_manager.Power.Tick.{Occurrence}
use atlas_manager.Power.Interval.{create_occurrence}
use atlas_manager.Power.Shutdown.Action.{lift, after-Keeps, Keeps}
use atlas_manager.Power.Shutdown.Blocker.{BlockerCode}
use atlas_manager.Power.Shutdown.Readiness.{
  Reader, Readers, occurrence_of, is_before, is_at_or_after, collect_blockers, evaluate_confirmed,
  evaluate_valid, evaluate_at, reject_with,
}

-- No reader loses the property of the world.
abbrev pub KeepsReader : {W A : Type 0} → (W → Type 0) → Reader W A → Type 0
KeepsReader P r = (o : Occurrence) (at : Str) → Keeps P (r o at)

abbrev pub KeepsReaders : {W : Type 0} → (W → Type 0) → Readers W → Type 0
KeepsReaders P r =
    KeepsReader P r.confirmation
    × KeepsReader P r.services
    × KeepsReader P r.active_tasks
    × KeepsReader P r.backups
    × KeepsReader P r.filesystem
    × KeepsReader P r.event_recording

module _ (d : Dates) (compare : Str → Str → ℤ) {W : Type 0} (P : W → Type 0) (r : Readers W)
    (c : Reader W Bool) (keeps : KeepsReaders P r) (confirms : KeepsReader P c) where
  collect_blockers-Keeps :
      (o : Occurrence) (at : Str) (w : W) → P w → P (collect_blockers d compare r o at w).0
  unfolding collect_blockers
  collect_blockers-Keeps o at w p =
      let (k0, k1, k2, k3, k4, k5) = keeps in
      k5 o at _ (k4 o at _ (k3 o at _ (k2 o at _ (k1 o at w p))))

  evaluate_confirmed-Keeps :
      (o : Occurrence) (at : Str) (q : W × Result (Unit {0}) Bool)
      → P q.0
      → P (evaluate_confirmed d compare r o at q).0
  evaluate_confirmed-Keeps o at (w, err e) p = p
  evaluate_confirmed-Keeps o at (w, ok false) p = p
  evaluate_confirmed-Keeps o at (w, ok true) p = collect_blockers-Keeps o at w p

  evaluate_valid-Keeps : (at : Str) (o : Occurrence) → Keeps P (evaluate_valid d compare r c at o)
  evaluate_valid-Keeps at o w p =
      go (is_before (d.parse at) (d.parse o.scheduled_for))
        (is_at_or_after (d.parse at) (d.parse o.wake_scheduled_for))
    where
      go :
          (a b : Bool)
          → P
              ((if a
                  then lift (reject_with d compare o at BlockerCode.not_due)
                  else if b
                  then lift (reject_with d compare o at BlockerCode.stale)
                  else λ w. evaluate_confirmed d compare r o at (c o at w))
                w).0
      go true b = p
      go false true = p
      go false false = evaluate_confirmed-Keeps o at (c o at w) (confirms o at w p)

  pub evaluate_at-Keeps : (o : Occurrence) (at : Str) → Keeps P (evaluate_at d compare r c o at)
  unfolding evaluate_at
  evaluate_at-Keeps o at w p =
      after-Keeps P (evaluate_valid d compare r c at)
        (w, occurrence_of (create_occurrence d o.scheduled_for o.wake_scheduled_for)) p
        (evaluate_valid-Keeps at)
