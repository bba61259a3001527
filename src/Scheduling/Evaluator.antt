-- ===== src/Scheduling/Evaluator.antt =====
-- service-availability-policy-evaluator.ts.
pub mod Laws
use atlas_manager.Base.{
  ℕ, ◌≡◌, Bool, true, false, not, ◌&&◌, List, [], ◌∷◌, ◌++◌, Str, lit, str_eq, str_lt, Result, ok,
  err, Option, some, none, ◌>>=◌, ◌>>◌, any, if◌then◌else◌,
}
use atlas_manager.Base.Int.{ℤ}
use atlas_manager.Base.Platform.{Zone, find_part}
use atlas_manager.Base.Values.{Value, find_name}
use atlas_manager.Scheduling.Errors.{SchedulingError, invalid_service_availability_instant}
use atlas_manager.Scheduling.Weekday.{
  Weekday, monday, tuesday, wednesday, thursday, friday, saturday, sunday, weekday_eq,
}
use atlas_manager.Scheduling.Window.{Window}
use atlas_manager.Scheduling.Schedule.{Schedule}
use atlas_manager.Scheduling.Policy.{
  Policy, always_policy, manual_policy, disabled_policy, scheduled_policy, Timezone, timezone_name,
}

pub data Expectation : Type 0 where
  available unavailable manual disabled : Expectation

abbrev pub english_name : Weekday → Str
english_name monday = lit "Monday"
english_name tuesday = lit "Tuesday"
english_name wednesday = lit "Wednesday"
english_name thursday = lit "Thursday"
english_name friday = lit "Friday"
english_name saturday = lit "Saturday"
english_name sunday = lit "Sunday"

abbrev pub weekday_by_english_name : List (Str × Weekday)
weekday_by_english_name =
    (lit "Monday", monday)
    ∷ (lit "Tuesday", tuesday)
    ∷ (lit "Wednesday", wednesday)
    ∷ (lit "Thursday", thursday)
    ∷ (lit "Friday", friday)
    ∷ (lit "Saturday", saturday)
    ∷ (lit "Sunday", sunday)
    ∷ []

-- The finite time of a `Date`; any other value, and an invalid date, is an error.
unfoldable pub evaluation_timestamp : Value → Result SchedulingError ℤ
evaluation_timestamp (Value.date (some t)) = ok t
evaluation_timestamp v = err invalid_service_availability_instant

unfoldable pub get_part : List (Str × Str) → Str → Result SchedulingError Str
get_part parts type = elim (find_part parts type) [
  | some v ↦ ok v
  | none ↦ err invalid_service_availability_instant
]

-- `${hour}:${minute}`.
abbrev pub local_time : Str → Str → Str
local_time hour minute = hour ++ (lit ":" ++ minute)

-- `window.start <= localTime && localTime < window.end` on the window's day.
abbrev pub is_inside : Weekday → Str → Window → Bool
is_inside day time w = weekday_eq w.weekday day && (not (str_lt time w.start) && str_lt time w.end)

abbrev pub expectation_of : Bool → Expectation
expectation_of true = available
expectation_of false = unavailable

abbrev pub weekday_of_part : Str → Result SchedulingError Weekday
weekday_of_part part = elim (find_name weekday_by_english_name part) [
  | some d ↦ ok d
  | none ↦ err invalid_service_availability_instant
]

unfoldable pub evaluate_scheduled :
    Zone → Timezone → Schedule → ℤ → Result SchedulingError Expectation
evaluate_scheduled zone tz schedule timestamp = do
  let parts = zone.format_to_parts (timezone_name tz) timestamp
  part ← get_part parts (lit "weekday")
  hour ← get_part parts (lit "hour")
  minute ← get_part parts (lit "minute")
  day ← weekday_of_part part
  ok (expectation_of (any (is_inside day (local_time hour minute)) schedule.windows))

unfoldable pub evaluate_at : Zone → Policy → ℤ → Result SchedulingError Expectation
unfolding evaluate_scheduled
evaluate_at zone always_policy t = ok available
evaluate_at zone manual_policy t = ok manual
evaluate_at zone disabled_policy t = ok disabled
evaluate_at zone (scheduled_policy tz schedule) t = evaluate_scheduled zone tz schedule t

unfoldable pub evaluate_policy : Zone → Policy → Value → Result SchedulingError Expectation
unfolding evaluation_timestamp evaluate_at
evaluate_policy zone policy instant = do t ← evaluation_timestamp instant; evaluate_at zone policy t
