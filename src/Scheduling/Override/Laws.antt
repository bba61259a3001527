-- ===== src/Scheduling/Override/Laws.antt =====
-- What an override does to the expectation.
use atlas_manager.Base.{◌≡◌, ◌⊎◌, ◌≢◌, inl, inr, refl, arith, Result, ok, some}
use atlas_manager.Base.Int.{ℤ, ◌≤ℤ◌, ◌<ℤ◌}
use atlas_manager.Base.Platform.{Zone, Dates}
use atlas_manager.Base.Values.{Value}
use atlas_manager.Scheduling.Policy.{
  Policy, always_policy, manual_policy, disabled_policy, scheduled_policy,
}
use atlas_manager.Scheduling.Evaluator.{Expectation, available, manual, evaluate_policy}
use atlas_manager.Scheduling.Override.{
  Override, OverrideKind, keep_available, suspend_schedule, override_expectation,
  evaluate_with_override,
}
use atlas_manager.Scheduling.Errors.{SchedulingError}

-- What an override in force makes of the expectation.
abbrev pub Overridden : OverrideKind → Result SchedulingError Expectation → Type 0
Overridden k r =
    ((k ≡ keep_available) × (r ≡ ok available)) ⊎ ((k ≡ suspend_schedule) × (r ≡ ok manual))

override_expectation-Overridden : (k : OverrideKind) → Overridden k (ok (override_expectation k))
override_expectation-Overridden keep_available = inl (refl, refl)
override_expectation-Overridden suspend_schedule = inr (refl, refl)

in_force :
    (d : Dates) (zone : Zone) (policy : Policy) (o : Override) (e t : ℤ)
    → d.parse o.expires_at ≡ some e
    → (t <ℤ e)
        × (policy ≢ disabled_policy)
        × (evaluate_with_override d zone policy (some o) (Value.date (some t))
            ≡ ok (override_expectation o.kind))
      ⊎ ((e ≤ℤ t) ⊎ (policy ≡ disabled_policy))
        × (evaluate_with_override d zone policy (some o) (Value.date (some t))
            ≡ evaluate_policy zone policy (Value.date (some t)))
unfolding evaluate_with_override evaluate_policy
in_force d zone always_policy o e t h = ground arith
in_force d zone manual_policy o e t h = ground arith
in_force d zone disabled_policy o e t h = ground arith
in_force d zone (scheduled_policy z s) o e t h = ground arith

-- The override is in force before the time `e` at which it expires, on a service that is not disabled: the
-- expectation is then available if it keeps the service available and manual if it suspends the schedule, whatever
-- the schedule says. From `e` on the override has no effect, and it never has one on a disabled service.
pub evaluate_with_override_cases :
    (d : Dates) (zone : Zone) (policy : Policy) (o : Override) (e t : ℤ)
    → d.parse o.expires_at ≡ some e
    → (t <ℤ e)
        × (policy ≢ disabled_policy)
        × Overridden o.kind (evaluate_with_override d zone policy (some o) (Value.date (some t)))
      ⊎ ((e ≤ℤ t) ⊎ (policy ≡ disabled_policy))
        × (evaluate_with_override d zone policy (some o) (Value.date (some t))
            ≡ evaluate_policy zone policy (Value.date (some t)))
evaluate_with_override_cases d zone policy o e t h = elim (in_force d zone policy o e t h) [
  | inl (early, enabled, same) ↦
      inl (early, enabled, rw same (override_expectation-Overridden o.kind))
  | inr (late, same) ↦ inr (late, same)
]
