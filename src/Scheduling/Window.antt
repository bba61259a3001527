-- ===== src/Scheduling/Window.antt =====
-- weekly-availability-window.ts.
pub mod Laws
use atlas_manager.Base.{
  ℕ, ◌<◌, ◌≡◌, Bool, true, false, not, List, [], ◌∷◌, arith, Str, lit, str_lt, str_eq, Result, ok,
  err, Option, some, none, throw_if, ◌>>=◌, ◌>>◌,
}
use atlas_manager.Base.Values.{Value, Fields, as_object, has_exact_fields, read_field, get_field}
use atlas_manager.Scheduling.Errors.{SchedulingError, invalid_weekly_availability_window}
use atlas_manager.Scheduling.Weekday.{Weekday, create_weekday}
use atlas_manager.Scheduling.LocalTime.{create_local_time, matches_local_time, minute_of}

pub record Window : Type 0 where
  pub weekday : Weekday
  pub start : Str
  pub end : Str

abbrev pub window_fields : List Str
window_fields = lit "weekday" ∷ lit "start" ∷ lit "end" ∷ []

-- The test `start >= end`, and the window.
unfoldable pub order_window : Weekday → Str → Str → Result SchedulingError Window
order_window weekday start end = do
  throw_if (not (str_lt start end)) invalid_weekly_availability_window
  ok (record { weekday = weekday; start = start; end = end })

-- The part of `createWeeklyAvailabilityWindow` behind the test of the shape.
unfoldable pub create_window_from : Fields → Result SchedulingError Window
unfolding create_weekday create_local_time get_field order_window
create_window_from fs = do
  weekday ← create_weekday (read_field fs (lit "weekday"))
  start ← create_local_time (read_field fs (lit "start"))
  end ← create_local_time (read_field fs (lit "end"))
  order_window weekday start end

unfoldable pub create_window : Value → Result SchedulingError Window
unfolding create_window_from has_exact_fields
create_window v = elim (as_object v) [
  | some fs ↦ elim (has_exact_fields window_fields fs) [
    | true ↦ create_window_from fs
    | false ↦ err invalid_weekly_availability_window
  ]
  | none ↦ err invalid_weekly_availability_window
]

-- A window of valid times that is not empty.
pub record IsWindow (w : Window) : Type 0 where
  pub start_valid : matches_local_time w.start ≡ true
  pub end_valid : matches_local_time w.end ≡ true
  pub nonempty : minute_of w.start < minute_of w.end
