-- ===== src/Scheduling/Schedule.antt =====
-- weekly-availability-schedule.ts.
pub mod Order
pub mod Canonical
pub mod Created
use atlas_manager.Base.{
  ℕ, ◌+◌, ◌<◌, ◌≡◌, Bool, true, false, not, ◌&&◌, List, [], ◌∷◌, arith, Str, lit, str_lt, Result,
  ok, err, Option, some, none, throw_if, ◌>>=◌, ◌>>◌, map_result, if◌then◌else◌, ltb, leb, ◌==◌,
  length,
}
use atlas_manager.Base.Int.{ℤ, pos, negsuc, ◌-ℤ◌}
use atlas_manager.Base.Values.{Value, list_values}
use atlas_manager.Scheduling.Errors.{
  SchedulingError, invalid_weekly_availability_window, empty_weekly_availability_schedule,
  weekly_availability_schedule_limit_exceeded, overlapping_weekly_availability_windows,
}
use atlas_manager.Scheduling.Weekday.{weekday_order, weekday_eq}
use atlas_manager.Scheduling.Window.{Window, create_window}

pub record Schedule : Type 0 where
  pub windows : List Window

abbrev pub maximum_weekly_windows : ℕ
maximum_weekly_windows = 64

abbrev pub compare_canonical_values : Str → Str → ℤ
compare_canonical_values left right =
    if str_lt left right then negsuc 0 else if str_lt right left then pos 1 else pos 0

-- `d !== 0 ? d : e`.
abbrev pub or_else : ℤ → ℤ → ℤ
or_else (pos n) e = if n == 0 then e else pos n
or_else (negsuc n) e = negsuc n

unfoldable pub compare_windows : Window → Window → ℤ
unfolding ◌-ℤ◌
compare_windows left right =
    or_else (pos (weekday_order left.weekday) -ℤ pos (weekday_order right.weekday)) (
      or_else (compare_canonical_values left.start right.start)
        (compare_canonical_values left.end right.end))

abbrev pub is_positive : ℤ → Bool
is_positive (pos n) = not (n == 0)
is_positive (negsuc n) = false

-- `Array.prototype.sort` is a stable sort by the comparator.
unfoldable pub insert_window : Window → List Window → List Window
insert_window w [] = w ∷ []
insert_window w (v ∷ vs) =
    let later = v ∷ insert_window w vs in
    if is_positive (compare_windows w v) then later else w ∷ v ∷ vs

unfoldable pub sort_windows : List Window → List Window
unfolding insert_window compare_windows
sort_windows [] = []
sort_windows (w ∷ ws) = insert_window w (sort_windows ws)

abbrev pub windows_overlap : Window → Window → Bool
windows_overlap previous current =
    weekday_eq previous.weekday current.weekday && str_lt current.start previous.end

-- The loop of `rejectOverlappingWindows`, from the second window on.
unfoldable pub reject_overlapping_from : Window → List Window → Result SchedulingError (Unit {0})
reject_overlapping_from previous [] = ok tt
reject_overlapping_from previous (current ∷ rest) =
    throw_if (windows_overlap previous current) overlapping_weekly_availability_windows
    >> reject_overlapping_from current rest

unfoldable pub reject_overlapping : List Window → Result SchedulingError (Unit {0})
unfolding reject_overlapping_from
reject_overlapping [] = ok tt
reject_overlapping (w ∷ ws) = reject_overlapping_from w ws

-- What `createWeeklyAvailabilitySchedule` does with the windows once each is created.
unfoldable pub canonical_schedule : List Window → Result SchedulingError Schedule
unfolding sort_windows reject_overlapping
canonical_schedule ws = do
  reject_overlapping (sort_windows ws)
  ok (record { windows = sort_windows ws })

unfoldable pub create_schedule : Value → Result SchedulingError Schedule
unfolding create_window canonical_schedule
create_schedule (Value.array vs) = do
  throw_if (length (list_values vs) == 0) empty_weekly_availability_schedule
  throw_if (ltb maximum_weekly_windows (length (list_values vs)))
      weekly_availability_schedule_limit_exceeded
  ws ← map_result create_window (list_values vs)
  canonical_schedule ws
create_schedule v = err invalid_weekly_availability_window
