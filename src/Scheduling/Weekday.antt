-- ===== src/Scheduling/Weekday.antt =====
-- service-schedule-weekday.ts, and the order of the week days in weekly-availability-schedule.ts.
use atlas_manager.Base.{ℕ, Bool, List, [], ◌∷◌, Str, lit, ◌==◌, Result, ok, err, some, none, str_eq}
use atlas_manager.Base.Values.{Value, find_name}
use atlas_manager.Scheduling.Errors.{SchedulingError, invalid_schedule_weekday}

pub data Weekday : Type 0 where
  monday tuesday wednesday thursday friday saturday sunday : Weekday

abbrev pub weekday_allowlist : List (Str × Weekday)
weekday_allowlist =
    (lit "monday", monday)
    ∷ (lit "tuesday", tuesday)
    ∷ (lit "wednesday", wednesday)
    ∷ (lit "thursday", thursday)
    ∷ (lit "friday", friday)
    ∷ (lit "saturday", saturday)
    ∷ (lit "sunday", sunday)
    ∷ []

unfoldable pub create_weekday : Value → Result SchedulingError Weekday
unfolding str_eq
create_weekday (Value.string s) = elim (find_name weekday_allowlist s) [
  | some d ↦ ok d
  | none ↦ err invalid_schedule_weekday
]
create_weekday v = err invalid_schedule_weekday

-- The position in SERVICE_SCHEDULE_WEEKDAYS.
abbrev pub weekday_order : Weekday → ℕ
weekday_order monday = 0
weekday_order tuesday = 1
weekday_order wednesday = 2
weekday_order thursday = 3
weekday_order friday = 4
weekday_order saturday = 5
weekday_order sunday = 6

-- `left === right`.
abbrev pub weekday_eq : Weekday → Weekday → Bool
weekday_eq a b = weekday_order a == weekday_order b
