-- ===== src/Scheduling/Evaluator/Laws.antt =====
-- The evaluator against the minutes of the local clock.
use atlas_manager.Base.{
  ℕ, ◌≡◌, refl, Bool, true, ◌&&◌, List, [], ◌∷◌, arith, Str, lit, str_eq, ok, some, any, All, leb,
  ltb, ◌==◌,
}
use atlas_manager.Base.Int.{ℤ}
use atlas_manager.Base.Platform.{Zone, find_part}
use atlas_manager.Scheduling.Weekday.{
  Weekday, monday, tuesday, wednesday, thursday, friday, saturday, sunday, weekday_order,
}
use atlas_manager.Scheduling.LocalTime.{matches_local_time, minute_of, str_lt-minute_of}
use atlas_manager.Scheduling.Window.{Window, IsWindow}
use atlas_manager.Scheduling.Schedule.{Schedule}
use atlas_manager.Scheduling.Policy.{Timezone, timezone_name, scheduled_policy}
use atlas_manager.Scheduling.Evaluator.{
  english_name, weekday_of_part, local_time, is_inside, expectation_of, get_part,
  evaluate_scheduled, evaluate_at,
}

-- What `formatToParts` gives in the locale and options of the program: an English name of the week day,
-- and an hour and a minute of two digits each.
pub record LocalClock (zone : Zone) (tz : Timezone) : Type 0 where
  pub day : ℤ → Weekday
  pub hour : ℤ → Str
  pub minute : ℤ → Str
  pub weekday_part :
      (t : ℤ)
      → find_part (zone.format_to_parts (timezone_name tz) t) (lit "weekday")
        ≡ some (english_name (day t))
  pub hour_part :
      (t : ℤ) → find_part (zone.format_to_parts (timezone_name tz) t) (lit "hour") ≡ some (hour t)
  pub minute_part :
      (t : ℤ)
      → find_part (zone.format_to_parts (timezone_name tz) t) (lit "minute") ≡ some (minute t)
  pub two_digits : (t : ℤ) → matches_local_time (local_time (hour t) (minute t)) ≡ true

-- The minute of the local day at a time.
abbrev pub minute_at : {zone : Zone} {tz : Timezone} → LocalClock zone tz → ℤ → ℕ
minute_at c t = minute_of (local_time (c.hour t) (c.minute t))

-- The window holds the minute `m` of the day `day`: the start is included, the end is not.
abbrev pub covers : Weekday → ℕ → Window → Bool
covers day m w =
    weekday_order w.weekday == weekday_order day
    && (leb (minute_of w.start) m && ltb m (minute_of w.end))

-- Some window of the schedule holds the local time at `t`.
abbrev pub is_open : {zone : Zone} {tz : Timezone} → LocalClock zone tz → Schedule → ℤ → Bool
is_open c s t = any (covers (c.day t) (minute_at c t)) s.windows

weekday_of-english : (d : Weekday) → weekday_of_part (english_name d) ≡ ok d
unfolding str_eq
weekday_of-english monday = refl
weekday_of-english tuesday = refl
weekday_of-english wednesday = refl
weekday_of-english thursday = refl
weekday_of-english friday = refl
weekday_of-english saturday = refl
weekday_of-english sunday = refl

inside-covers :
    (day : Weekday) (time : Str) (w : Window)
    → matches_local_time time ≡ true
    → IsWindow w
    → is_inside day time w ≡ covers day (minute_of time) w
inside-covers day time w v x = ground (
  arith,
  str_lt-minute_of time w.start v x.start_valid,
  str_lt-minute_of time w.end v x.end_valid,
)

any-covers :
    (day : Weekday) (time : Str) (ws : List Window)
    → matches_local_time time ≡ true
    → All IsWindow ws
    → any (is_inside day time) ws ≡ any (covers day (minute_of time)) ws
any-covers day time [] v x = refl
any-covers day time (w ∷ ws) v x = rw (inside-covers day time w v x.0, any-covers day time ws v x.1)

get_part-eq :
    (parts : List (Str × Str)) (type v : Str)
    → find_part parts type ≡ some v
    → get_part parts type ≡ ok v
unfolding get_part
get_part-eq parts type v e = rw (e, get_part)

-- On windows that are valid, and in a zone that names the local day, hour and minute of every time, a scheduled
-- service is expected to be available exactly in the minutes of its windows, and the evaluation does not fail.
pub evaluate_at-is_open :
    {zone : Zone} {tz : Timezone} (c : LocalClock zone tz) (s : Schedule) (t : ℤ)
    → All IsWindow s.windows
    → evaluate_at zone (scheduled_policy tz s) t ≡ ok (expectation_of (is_open c s t))
unfolding evaluate_at evaluate_scheduled
evaluate_at-is_open c s t x = rw (get_part-eq _ _ _ (c.weekday_part t)) (
    rw (get_part-eq _ _ _ (c.hour_part t)) (
      rw (get_part-eq _ _ _ (c.minute_part t)) (
        rw (weekday_of-english (c.day t)) (
          rw (
            any-covers (c.day t) (local_time (c.hour t) (c.minute t)) s.windows (c.two_digits t)
              x)))))
