-- ===== src/Power/Examples.antt =====
-- A tick one minute after the last one, in which one shutdown is due and executed.
use atlas_manager.Power.Interval.{OperatingPolicy, scheduled, create_occurrences}
use atlas_manager.Power.Interval.Laws.{IsTime, join, create_occurrences-split}
use atlas_manager.Base.{
  List, arith, ℕ, zero, suc, ◌≡◌, ◌≢◌, refl, true, [], ◌∷◌, Str, lit, str_eq, str_lt, some, none,
  ok, if◌then◌else◌,
}
use atlas_manager.Base.Int.{◌-ℤ◌, ℤ, pos}
use atlas_manager.Base.Platform.{Zone, is_canonical_timestamp, Dates}
use atlas_manager.Power.Cursor.{create_cursor, Cursor, advanced, advance, replay, advance-once}
use atlas_manager.Power.Tick.{
  finish, run_occurrences, create_report, Occurrence, executed, result, completed_item, Report,
  advanced_result, State, Services, execute_core,
}
use atlas_manager.Power.Tick.Laws.{Advances, Ran, execute_core-Advances}

abbrev before : Str
before = lit "2026-01-01T22:00:00.000Z"

abbrev now : Str
now = lit "2026-01-01T22:01:00.000Z"

abbrev iso : ℤ → Str
iso (pos zero) = before
iso t = now

abbrev clock : Dates
clock = record {
  parse = λ s.
      if str_eq s before then some (pos 0) else if str_eq s now then some (pos 60000) else none;
  to_iso = iso;
}

abbrev due : Occurrence
due = record { scheduled_for = now; wake_scheduled_for = lit "2026-01-02T08:00:00.000Z" }

-- The world counts the executions.
abbrev services : Services ℕ
services = record {
  occurrences_for = λ a b. ok (due ∷ []);
  execute_at = λ o t s. (record { cursor = s.cursor; world = suc s.world }, result executed);
  prune_completed_through = λ c s. (s, ok tt);
}

abbrev cursor_at : Str → Cursor
cursor_at t = record { completed_through = t }

abbrev before_tick : State ℕ
before_tick = record { cursor = some (cursor_at before); world = 0 }

abbrev after_tick : State ℕ
after_tick = record { cursor = some (cursor_at now); world = 1 }

abbrev report : Report
report = record {
  completed_through = before;
  ticked_through = now;
  occurrence_results = completed_item executed ∷ [];
  complete = true;
}

tick_advances :
    execute_core clock services now before_tick
    ≡ (after_tick, ok (advanced_result (cursor_at before) (cursor_at now) report))
unfolding execute_core create_cursor is_canonical_timestamp str_eq str_lt ◌-ℤ◌ create_report
    run_occurrences finish advance
tick_advances = refl

store_advances :
    (advance clock (some (cursor_at before)) (cursor_at now) (some (cursor_at before))).1
    ≡ ok (advanced (cursor_at now))
unfolding advance is_canonical_timestamp str_eq str_lt
store_advances = refl

execute_core-Advances_example :
    (before_tick.cursor ≡ some (cursor_at before))
    × Advances clock services now (cursor_at before) (cursor_at now) report after_tick
    × Ran clock services now (cursor_at before) report before_tick after_tick
execute_core-Advances_example =
    execute_core-Advances clock services now before_tick after_tick (cursor_at before)
      (cursor_at now) report tick_advances

advance-once_example :
    (advance clock (some (cursor_at before)) (cursor_at now) (
      replay clock
        ((some (cursor_at now), cursor_at before) ∷ [])
        (advance clock (some (cursor_at before)) (cursor_at now) (some (cursor_at before))).0)).1
    ≢ ok (advanced (cursor_at now))
advance-once_example =
    advance-once clock (some (cursor_at before)) (cursor_at now) (cursor_at now) (cursor_at now)
      (cursor_at now) (some (cursor_at before)) ((some (cursor_at now), cursor_at before) ∷ [])
      store_advances

-- A machine that runs on Thursdays from 20:00 to 22:00, and a zone in which `before` is 21:59 there.
abbrev local_parts : ℤ → List (Str × Str)
local_parts (pos zero) =
    (lit "weekday", lit "Thursday") ∷ (lit "hour", lit "21") ∷ (lit "minute", lit "59") ∷ []
local_parts t =
    (lit "weekday", lit "Thursday") ∷ (lit "hour", lit "22") ∷ (lit "minute", lit "00") ∷ []

abbrev zone : Zone
zone = record { format_to_parts = λ name t. local_parts t }

abbrev thursdays : OperatingPolicy
thursdays =
    scheduled (lit "America/Sao_Paulo")
      (record { day_of_week = lit "thursday"; start = lit "20:00"; end = lit "22:00" } ∷ [])

before-IsTime : IsTime clock before 0
unfolding is_canonical_timestamp str_eq
before-IsTime = record { canonical = refl; parsed = refl }

now-IsTime : IsTime clock now 60000
unfolding is_canonical_timestamp str_eq
now-IsTime = record { canonical = refl; parsed = refl }

create_occurrences-split_example :
    create_occurrences clock zone thursdays before now
    ≡ join
        (create_occurrences clock zone thursdays before before)
        (create_occurrences clock zone thursdays before now)
create_occurrences-split_example =
    create_occurrences-split clock zone thursdays before before now 0 0 60000 before-IsTime
      before-IsTime now-IsTime (omega arith) (omega arith) (omega arith)
