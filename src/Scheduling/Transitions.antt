-- ===== src/Scheduling/Transitions.antt =====
-- service-availability-policy-transition-calculator.ts.
pub mod Laws
use atlas_manager.Base.{
  ℕ, zero, suc, ◌+◌, ◌-◌, ◌*◌, ◌/◌, ◌%◌, ◌≡◌, Bool, true, false, not, ◌&&◌, ◌||◌, List, [], ◌∷◌,
  Str, Result, ok, err, Option, some, none, ◌>>=◌, ◌>>◌, throw_if, if◌then◌else◌, ◌==◌,
}
use atlas_manager.Base.Int.{ℤ, pos, negsuc, leb_ℤ, ltb_ℤ, ◌+ℤ◌, ◌-ℤ◌}
use atlas_manager.Base.Platform.{Zone, Dates}
use atlas_manager.Base.Values.{Value}
use atlas_manager.Scheduling.Errors.{
  SchedulingError, invalid_transition_interval, transition_interval_not_minute_aligned,
  transition_interval_limit_exceeded, out_of_fuel,
}
use atlas_manager.Scheduling.Policy.{Policy, Timezone, scheduled_policy}
use atlas_manager.Scheduling.Schedule.{Schedule}
use atlas_manager.Scheduling.Evaluator.{
  Expectation, available, unavailable, manual, disabled, evaluate_at,
}

pub data TransitionKind : Type 0 where
  became_available became_unavailable : TransitionKind

pub record Transition : Type 0 where
  pub kind : TransitionKind
  pub scheduled_for : Str

abbrev pub minute_in_milliseconds : ℕ
minute_in_milliseconds = 60000

abbrev pub maximum_interval_in_milliseconds : ℕ
maximum_interval_in_milliseconds = 8 * 24 * 60 * minute_in_milliseconds

-- `getUTCSeconds()` and `getUTCMilliseconds()`: the time is divided towards minus infinity.
abbrev pub utc_seconds : ℤ → ℕ
utc_seconds (pos n) = n / 1000 % 60
utc_seconds (negsuc n) = 59 - n / 1000 % 60

abbrev pub utc_milliseconds : ℤ → ℕ
utc_milliseconds (pos n) = n % 1000
utc_milliseconds (negsuc n) = 999 - n % 1000

abbrev pub is_minute_aligned : ℤ → Bool
is_minute_aligned t = utc_seconds t == 0 && utc_milliseconds t == 0

unfoldable pub validate_times : ℤ → ℤ → Result SchedulingError (ℤ × ℤ)
validate_times from to = do
  throw_if (leb_ℤ to from) invalid_transition_interval
  throw_if (not (is_minute_aligned from) || not (is_minute_aligned to))
      transition_interval_not_minute_aligned
  throw_if (ltb_ℤ (pos maximum_interval_in_milliseconds) (to -ℤ from))
      transition_interval_limit_exceeded
  ok (from, to)

unfoldable pub validate_interval : Value → Value → Result SchedulingError (ℤ × ℤ)
validate_interval (Value.date (some from)) (Value.date (some to)) = validate_times from to
validate_interval _ _ = err invalid_transition_interval

abbrev pub expectation_eq : Expectation → Expectation → Bool
expectation_eq available available = true
expectation_eq unavailable unavailable = true
expectation_eq manual manual = true
expectation_eq disabled disabled = true
expectation_eq _ _ = false

abbrev pub kind_of : Expectation → TransitionKind
kind_of available = became_available
kind_of e = became_unavailable

abbrev pub create_transition : Dates → Expectation → ℤ → Transition
create_transition d e t = record { kind = kind_of e; scheduled_for = d.to_iso t }

module _ (d : Dates) (zone : Zone) (policy : Policy) where
  -- The loop over `timestamp`, from the state `previousExpectation`.
  unfoldable pub transitions_from :
      ℕ → ℤ → ℤ → Expectation → Result SchedulingError (List Transition)
  transitions_from zero t to previous = err out_of_fuel
  transitions_from (suc fuel) t to previous = elim (leb_ℤ t to) [
    | true ↦ evaluate_at zone policy t >>= λ e. elim (expectation_eq e previous) [
      | true ↦ transitions_from fuel (t +ℤ pos minute_in_milliseconds) to previous
      | false ↦ transitions_from fuel (t +ℤ pos minute_in_milliseconds) to e >>= λ rest.
          ok (create_transition d e t ∷ rest)
    ]
    | false ↦ ok []
  ]

-- An interval of at most eight days has 11520 minutes; one more round ends the loop.
abbrev pub transition_fuel : ℕ
transition_fuel = 11521

abbrev pub scheduled_transitions :
    Dates → Zone → Policy → ℤ × ℤ → Result SchedulingError (List Transition)
scheduled_transitions d zone policy (from, to) = evaluate_at zone policy from >>= λ previous.
    transitions_from d zone policy transition_fuel (from +ℤ pos minute_in_milliseconds) to previous

abbrev pub transitions_of_policy :
    Dates → Zone → Policy → ℤ × ℤ → Result SchedulingError (List Transition)
transitions_of_policy d zone (scheduled_policy tz s) interval =
    scheduled_transitions d zone (scheduled_policy tz s) interval
transitions_of_policy d zone p interval = ok []

unfoldable pub calculate_transitions :
    Dates → Zone → Policy → Value → Value → Result SchedulingError (List Transition)
unfolding validate_interval
calculate_transitions d zone policy from_exclusive to_inclusive = do
  interval ← validate_interval from_exclusive to_inclusive
  transitions_of_policy d zone policy interval
