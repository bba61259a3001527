-- ===== src/Scheduling/Schedule/Created.antt =====
-- What `createWeeklyAvailabilitySchedule` returns for the raw windows.

use atlas_manager.Base.{
  ℕ, suc, ◌≤◌, ◌<◌, ◌≡◌, refl, sym, ◌∙◌, ap, ◌⊎◌, inl, inr, List, [], ◌∷◌, arith, ltb, length, All,
  Pairwise, Result, ok, err, ◌>>=◌, ◌>>◌, throw_if, map_result, map_result-cons, ◌==◌,
}
use atlas_manager.Base.Values.{Value, Values, list_values}
use atlas_manager.Scheduling.Errors.{
  SchedulingError, overlapping_weekly_availability_windows, empty_weekly_availability_schedule,
  weekly_availability_schedule_limit_exceeded,
}
use atlas_manager.Scheduling.Window.{Window, IsWindow, create_window}
use atlas_manager.Scheduling.Window.Laws.{create_window-IsWindow}
use atlas_manager.Scheduling.Schedule.{
  Schedule, insert_window, sort_windows, canonical_schedule, create_schedule,
  maximum_weekly_windows,
}
use atlas_manager.Scheduling.Schedule.Order.{All-sort, sort-sorted, sort-perm}
use atlas_manager.Scheduling.Schedule.Canonical.{
  EndsBefore, Apart, IsCanonical, sort-Apart, sort-Apart_inv, EndsBefore-Apart, reject_sorted,
  accept_sorted, reject-cases, ReturnsSorted,
}

-- The list of the created windows is accepted exactly when no two of them overlap. What is returned
-- then holds the same windows, in the order of the week, each ending before the next one starts.
pub canonical_schedule_cases :
    (ws : List Window)
    → All IsWindow ws
    → Pairwise Apart ws × ReturnsSorted ws (canonical_schedule ws)
      ⊎ (¬ Pairwise Apart ws)
        × (canonical_schedule ws ≡ err overlapping_weekly_availability_windows)
unfolding canonical_schedule
canonical_schedule_cases ws v =
    let vs = All-sort IsWindow ws v in
    let sorted = sort-sorted ws v in
    elim (reject-cases (sort_windows ws)) [
      | inl e ↦
          let ordered = reject_sorted (sort_windows ws) vs sorted e in
          inl (
            sort-Apart_inv ws (EndsBefore-Apart (sort_windows ws) ordered),
            (record { windows = sort_windows ws }, rw e, sort-perm ws, ordered),
          )
      | inr e ↦
          inr (λ apart. cc (accept_sorted (sort_windows ws) vs sorted (sort-Apart ws apart)), rw e)
    ]

map_create-IsWindow :
    (vs : List Value) (ws : List Window)
    → map_result create_window vs ≡ ok ws
    → All IsWindow ws × (length ws ≡ length vs)
map_create-IsWindow [] ws h = let e : ws ≡ [] = cc in rw e (tt, refl)
map_create-IsWindow (v ∷ vs) ws h =
    let (y, zs, first, rest, e) = map_result-cons create_window v vs h in
    let ih = map_create-IsWindow vs zs rest in
    rw e ((create_window-IsWindow v first, ih.0), ap suc ih.1)

-- The steps of `createWeeklyAvailabilitySchedule`, over the length and the outcome of the windows.
abbrev stages : ℕ → Result SchedulingError (List Window) → Result SchedulingError Schedule
stages n r =
    throw_if (n == 0) empty_weekly_availability_schedule
    >> (throw_if (ltb maximum_weekly_windows n) weekly_availability_schedule_limit_exceeded
        >> (r >>= canonical_schedule))

stages-eq : (n : ℕ) (ws : List Window) → 0 < n → n ≤ 64 → stages n (ok ws) ≡ canonical_schedule ws
stages-eq n ws low high = ground arith

stages-eq-ok :
    (n : ℕ) (r : Result SchedulingError (List Window)) (s : Schedule)
    → stages n r ≡ ok s
    → (ws : List Window) × (r ≡ ok ws) × (0 < n) × (n ≤ 64) × (canonical_schedule ws ≡ ok s)
stages-eq-ok n (ok ws) s h = (ws, refl, ground arith, ground arith, ground arith)
stages-eq-ok n (err e) s h = absurd (ground arith)

create-stages :
    (vs : Values)
    → create_schedule (Value.array vs)
      ≡ stages (length (list_values vs)) (map_result create_window (list_values vs))
unfolding create_schedule
create-stages vs = refl

-- An array of one to 64 values of which each makes a window: the schedule is accepted exactly when no
-- two of the windows overlap, and it then holds these windows in the order of the week, each ending
-- before the next one starts. Otherwise the overlap is the error.
pub create_schedule_cases :
    (vs : Values) (ws : List Window)
    → map_result create_window (list_values vs) ≡ ok ws
    → 0 < length ws
    → length ws ≤ 64
    → Pairwise Apart ws × ReturnsSorted ws (create_schedule (Value.array vs))
      ⊎ (¬ Pairwise Apart ws)
        × (create_schedule (Value.array vs) ≡ err overlapping_weekly_availability_windows)
create_schedule_cases vs ws e low high =
    let (v, same) = map_create-IsWindow (list_values vs) ws e in
    let to : create_schedule (Value.array vs) ≡ canonical_schedule ws =
      create-stages vs
      ∙ ap (stages (length (list_values vs))) e
      ∙ stages-eq (length (list_values vs)) ws (omega arith) (omega arith) in
    rw to (canonical_schedule_cases ws v)

canonical_schedule-EndsBefore :
    (ws : List Window) (s : Schedule)
    → All IsWindow ws
    → canonical_schedule ws ≡ ok s
    → (s.windows ≡ sort_windows ws) × Pairwise EndsBefore s.windows
unfolding canonical_schedule
canonical_schedule-EndsBefore ws s v h = elim (reject-cases (sort_windows ws)) [
  | inl e ↦
      let h' : ◌≡◌ {A = Result SchedulingError Schedule} (ok (record { windows = sort_windows ws }))
          (ok s) =
        rw e at h in
      let same : s.windows ≡ sort_windows ws = cc in
      (
        same,
        rw same (reject_sorted (sort_windows ws) (All-sort IsWindow ws v) (sort-sorted ws v) e),
      )
  | inr e ↦ cc
]

length-insert : (w : Window) (vs : List Window) → length (insert_window w vs) ≡ suc (length vs)
unfolding insert_window
length-insert w [] = refl
length-insert w (v ∷ vs) = ground (arith, length-insert w vs)

length-sort : (ws : List Window) → length (sort_windows ws) ≡ length ws
unfolding sort_windows
length-sort [] = refl
length-sort (w ∷ ws) = length-insert w (sort_windows ws) ∙ ap suc (length-sort ws)

array-IsCanonical :
    (vs : Values) (s : Schedule) → create_schedule (Value.array vs) ≡ ok s → IsCanonical s
array-IsCanonical vs s h =
    let (ws, parsed, low, high, e) =
      stages-eq-ok (length (list_values vs)) (map_result create_window (list_values vs)) s
        (sym (create-stages vs) ∙ h) in
    let (v, same) = map_create-IsWindow (list_values vs) ws parsed in
    let (sorted, ordered) = canonical_schedule-EndsBefore ws s v e in
    let count : length s.windows ≡ length ws = ap length sorted ∙ length-sort ws in
    record {
      some_window = omega arith;
      bounded = omega arith;
      valid = rw sorted (All-sort IsWindow ws v);
      ordered = ordered;
    }

-- Whatever the input is: a schedule that is returned has one to 64 windows of valid times, none empty,
-- and each ends before every later one starts.
pub create_schedule-IsCanonical :
    (v : Value) (s : Schedule) → create_schedule v ≡ ok s → IsCanonical s
unfolding create_schedule
create_schedule-IsCanonical (Value.array vs) s h = array-IsCanonical vs s h
create_schedule-IsCanonical _ s h = cc
