-- ===== src/Scheduling/Examples.antt =====
-- Runs of service-scheduling on concrete inputs: a schedule of two windows on a clock that shows UTC.
use atlas_manager.Base.{
  ℕ, zero, suc, ◌+◌, ◌/◌, ◌%◌, ◌<◌, ◌≡◌, ◌≢◌, refl, ◌⊎◌, true, false, [], ◌∷◌, arith, Str, lit,
  str_eq, ok, err, some, none, All, Pairwise, map_result, str_lt, ltb,
}
use atlas_manager.Base.Int.{ℤ, pos, negsuc, ◌≤ℤ◌, ◌<ℤ◌, ◌+ℤ◌}
use atlas_manager.Base.Values.{Value, Values, Fields, nil, cons, list_values}
use atlas_manager.Base.Platform.{Dates, Zone, find_part}
use atlas_manager.Scheduling.Errors.{overlapping_weekly_availability_windows}
use atlas_manager.Scheduling.Weekday.{
  Weekday, monday, tuesday, wednesday, thursday, friday, saturday, sunday,
}
use atlas_manager.Scheduling.LocalTime.{matches_local_time, minute_of, str_lt-minute_of}
use atlas_manager.Scheduling.Window.{Window, IsWindow, create_window}
use atlas_manager.Scheduling.Window.Laws.{create_window-IsWindow}
use atlas_manager.Scheduling.Schedule.{Schedule, create_schedule}
use atlas_manager.Scheduling.Schedule.Canonical.{IsCanonical, Apart, ReturnsSorted}
use atlas_manager.Scheduling.Schedule.Created.{create_schedule_cases, create_schedule-IsCanonical}
use atlas_manager.Scheduling.Policy.{
  manual_policy, disabled_policy, scheduled_policy, america_sao_paulo,
}
use atlas_manager.Scheduling.Evaluator.{
  english_name, evaluate_at, evaluate_policy, expectation_of, available,
}
use atlas_manager.Scheduling.Evaluator.Laws.{LocalClock, is_open, evaluate_at-is_open}
use atlas_manager.Scheduling.Override.{Override, keep_available, evaluate_with_override}
use atlas_manager.Scheduling.Override.Laws.{Overridden, evaluate_with_override_cases}
use atlas_manager.Scheduling.Transitions.{calculate_transitions, kind_of}
use atlas_manager.Scheduling.Transitions.Laws.{
  IsInterval, Alternates, changes, minutes_between, calculate_transitions-changes,
}

abbrev digit : ℕ → ℕ
digit n = 48 + n

abbrev two : ℕ → Str
two n = digit (n / 10) ∷ digit (n % 10) ∷ []

-- Whole minutes since 1970, a Thursday; the clock stands still before.
abbrev minute_number : ℤ → ℕ
minute_number (pos n) = n / 60000
minute_number (negsuc n) = 0

abbrev day_name : ℕ → Weekday
day_name zero = thursday
day_name (suc zero) = friday
day_name (suc (suc zero)) = saturday
day_name (suc (suc (suc zero))) = sunday
day_name (suc (suc (suc (suc zero)))) = monday
day_name (suc (suc (suc (suc (suc zero))))) = tuesday
day_name _ = wednesday

abbrev utc_day : ℤ → Weekday
utc_day t = day_name (minute_number t / 1440 % 7)

abbrev utc_hour : ℤ → Str
utc_hour t = two (minute_number t / 60 % 24)

abbrev utc_minute : ℤ → Str
utc_minute t = two (minute_number t % 60)

abbrev utc : Zone
utc = record {
  format_to_parts = λ name t.
      (lit "weekday", english_name (utc_day t))
      ∷ (lit "hour", utc_hour t)
      ∷ (lit "minute", utc_minute t)
      ∷ [];
}

is_time :
    (h m : ℕ)
    → h < 24
    → m < 60
    → matches_local_time (digit (h / 10) ∷ digit (h % 10) ∷ 58 ∷ two m) ≡ true
unfolding matches_local_time
is_time h m p q = ground arith

utc_clock : LocalClock utc america_sao_paulo
unfolding find_part str_eq
utc_clock = record {
  day = utc_day;
  hour = utc_hour;
  minute = utc_minute;
  weekday_part = λ t. refl;
  hour_part = λ t. refl;
  minute_part = λ t. refl;
  two_digits =
      λ t. is_time (minute_number t / 60 % 24) (minute_number t % 60) (omega arith) (omega arith);
}

abbrev window : Str → Str → Str → Value
window day start end = Value.object true (
    Fields.field (lit "weekday") (Value.string day) (
      Fields.field (lit "start") (Value.string start)
        (Fields.field (lit "end") (Value.string end) Fields.end)))

abbrev morning : Window
morning = record { weekday = thursday; start = lit "08:00"; end = lit "12:00" }

abbrev evening : Window
evening = record { weekday = thursday; start = lit "18:30"; end = lit "22:00" }

abbrev raw_windows : Values
raw_windows =
    cons (window (lit "thursday") (lit "18:30") (lit "22:00"))
      (cons (window (lit "thursday") (lit "08:00") (lit "12:00")) nil)

abbrev thursdays : Schedule
thursdays = record { windows = morning ∷ evening ∷ [] }

create_evening : create_window (window (lit "thursday") (lit "18:30") (lit "22:00")) ≡ ok evening
unfolding create_window matches_local_time str_lt
create_evening = refl

windows_read : map_result create_window (list_values raw_windows) ≡ ok (evening ∷ morning ∷ [])
unfolding create_window matches_local_time str_lt
windows_read = refl

schedule_read : create_schedule (Value.array raw_windows) ≡ ok thursdays
unfolding create_schedule matches_local_time str_lt
schedule_read = refl

thursdays-IsWindow : All IsWindow thursdays.windows
thursdays-IsWindow =
    (create_schedule-IsCanonical (Value.array raw_windows) thursdays schedule_read).valid

-- No date has a text but the one that is used.
abbrev noon : Str
noon = lit "1970-01-01T12:00:00.000Z"

abbrev dates : Dates
dates = record {
  parse = λ s. elim (str_eq s noon) [ true ↦ some (pos 43200000) | false ↦ none ];
  to_iso = λ t. noon;
}

parse_noon : dates.parse noon ≡ some (pos 43200000)
unfolding str_eq
parse_noon = refl

str_lt-minute_of_example :
    str_lt (lit "08:00") (lit "18:30") ≡ ltb (minute_of (lit "08:00")) (minute_of (lit "18:30"))
unfolding matches_local_time
str_lt-minute_of_example = str_lt-minute_of (lit "08:00") (lit "18:30") refl refl

create_window-IsWindow_example : IsWindow evening
create_window-IsWindow_example =
    create_window-IsWindow (window (lit "thursday") (lit "18:30") (lit "22:00")) create_evening

create_schedule_cases_example :
    Pairwise Apart (evening ∷ morning ∷ [])
      × ReturnsSorted (evening ∷ morning ∷ []) (create_schedule (Value.array raw_windows))
    ⊎ (¬ Pairwise Apart (evening ∷ morning ∷ []))
      × (create_schedule (Value.array raw_windows) ≡ err overlapping_weekly_availability_windows)
create_schedule_cases_example =
    create_schedule_cases raw_windows (evening ∷ morning ∷ []) windows_read (omega arith)
      (omega arith)

create_schedule-IsCanonical_example : IsCanonical thursdays
create_schedule-IsCanonical_example =
    create_schedule-IsCanonical (Value.array raw_windows) thursdays schedule_read

evaluate_at-is_open_example :
    evaluate_at utc (scheduled_policy america_sao_paulo thursdays) (pos 30000000)
    ≡ ok (expectation_of (is_open utc_clock thursdays (pos 30000000)))
evaluate_at-is_open_example =
    evaluate_at-is_open utc_clock thursdays (pos 30000000) thursdays-IsWindow

abbrev kept : Override
kept = record { kind = keep_available; expires_at = noon }

kept_in_force :
    evaluate_with_override dates utc manual_policy (some kept) (Value.date (some (pos 7)))
    ≡ ok available
unfolding evaluate_with_override str_eq
kept_in_force = refl

interval : IsInterval (pos 0) (pos 86400000)
unfolding ◌+ℤ◌
interval = record {
  forward = omega arith;
  from_aligned = refl;
  to_aligned = refl;
  eight_days = omega arith;
}

evaluate_with_override_cases_example :
    ((pos 7 <ℤ pos 43200000)
      × (manual_policy ≢ disabled_policy)
      × Overridden keep_available
          (evaluate_with_override dates utc manual_policy (some kept) (Value.date (some (pos 7)))))
    ⊎ (((pos 43200000 ≤ℤ pos 7) ⊎ (manual_policy ≡ disabled_policy))
        × (evaluate_with_override dates utc manual_policy (some kept) (Value.date (some (pos 7)))
            ≡ evaluate_policy utc manual_policy (Value.date (some (pos 7)))))
evaluate_with_override_cases_example =
    evaluate_with_override_cases dates utc manual_policy kept (pos 43200000) (pos 7) parse_noon

calculate_transitions-changes_example :
    (calculate_transitions dates utc
        (scheduled_policy america_sao_paulo thursdays)
        (Value.date (some (pos 0)))
        (Value.date (some (pos 86400000)))
      ≡ ok (
          changes dates
            (is_open utc_clock thursdays)
            (minutes_between (pos 0) (pos 86400000))
            (pos 0 +ℤ pos 60000)))
    × Alternates (kind_of (expectation_of (is_open utc_clock thursdays (pos 0)))) (
        changes dates
          (is_open utc_clock thursdays)
          (minutes_between (pos 0) (pos 86400000))
          (pos 0 +ℤ pos 60000))
calculate_transitions-changes_example =
    calculate_transitions-changes dates utc_clock thursdays (pos 0) (pos 86400000)
      thursdays-IsWindow interval
