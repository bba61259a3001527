-- ===== src/Scheduling/Window/Laws.antt =====
-- What `createWeeklyAvailabilityWindow` accepts.
use atlas_manager.Base.{
  ◌≡◌, refl, Bool, true, false, arith, Str, lit, Result, ok, err, Option, some, none, ◌>>=◌,
}
use atlas_manager.Base.Values.{Value, Fields, as_object, has_exact_fields, read_field}
use atlas_manager.Scheduling.Errors.{SchedulingError, invalid_weekly_availability_window}
use atlas_manager.Scheduling.LocalTime.{create_local_time, matches_local_time, str_lt-minute_of}
use atlas_manager.Scheduling.Weekday.{Weekday, create_weekday}
use atlas_manager.Scheduling.Window.{
  Window, IsWindow, order_window, create_window_from, create_window, window_fields,
}

pub create_local_time-eq-ok :
    (v : Value) {s : Str} → create_local_time v ≡ ok s → matches_local_time s ≡ true
unfolding create_local_time
create_local_time-eq-ok (Value.string s) h = ground arith
create_local_time-eq-ok _ h = cc

order_window-IsWindow :
    (d : Weekday) (start end : Str) {w : Window}
    → matches_local_time start ≡ true
    → matches_local_time end ≡ true
    → order_window d start end ≡ ok w
    → IsWindow w
unfolding order_window
order_window-IsWindow d start end v v' h = ground (arith, str_lt-minute_of start end v v')

from_parts :
    (day : Result SchedulingError Weekday) (start end : Result SchedulingError Str) {w : Window}
    → ((s : Str) → start ≡ ok s → matches_local_time s ≡ true)
    → ((s : Str) → end ≡ ok s → matches_local_time s ≡ true)
    → (day >>= λ d. start >>= λ a. end >>= λ b. order_window d a b) ≡ ok w
    → IsWindow w
from_parts (ok d) (ok a) (ok b) v v' h = order_window-IsWindow d a b (v a refl) (v' b refl) h
from_parts (err e) a b v v' h = cc
from_parts (ok d) (err e) b v v' h = cc
from_parts (ok d) (ok a) (err e) v v' h = cc

create_window_from-IsWindow : (fs : Fields) {w : Window} → create_window_from fs ≡ ok w → IsWindow w
unfolding create_window_from
create_window_from-IsWindow fs h =
    from_parts (create_weekday (read_field fs (lit "weekday")))
      (create_local_time (read_field fs (lit "start")))
      (create_local_time (read_field fs (lit "end")))
      (λ s. create_local_time-eq-ok (read_field fs (lit "start")))
      (λ s. create_local_time-eq-ok (read_field fs (lit "end"))) h

-- Every window that the program creates is well formed.
pub create_window-IsWindow : (v : Value) {w : Window} → create_window v ≡ ok w → IsWindow w
unfolding create_window
create_window-IsWindow v h = checked (as_object v) h
  where
    shape :
        (fs : Fields) (b : Bool) {w : Window}
        → ◌≡◌ {A = Result SchedulingError Window}
            (elim b [
              | true ↦ create_window_from fs
              | false ↦ err invalid_weekly_availability_window
            ])
            (ok w)
        → IsWindow w
    shape fs true h = create_window_from-IsWindow fs h
    shape fs false h = cc

    checked :
        (o : Option Fields) {w : Window}
        → ◌≡◌ {A = Result SchedulingError Window}
            (elim o [
              | some fs ↦ elim (has_exact_fields window_fields fs) [
                | true ↦ create_window_from fs
                | false ↦ err invalid_weekly_availability_window
              ]
              | none ↦ err invalid_weekly_availability_window
            ])
            (ok w)
        → IsWindow w
    checked (some fs) h = shape fs (has_exact_fields window_fields fs) h
    checked none h = cc
