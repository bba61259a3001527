-- ===== src/Scheduling/Schedule/Canonical.antt =====
-- What `createWeeklyAvailabilitySchedule` accepts, and what it returns.
use mathlib.Core.List.{Perm}
use atlas_manager.Base.{
  ◌≤◌, ◌<◌, ◌≡◌, ◌≢◌, refl, ◌⊎◌, inl, inr, false, List, [], ◌∷◌, arith, length, All, Pairwise,
  All-map_imp, Bool-cases, Result, ok, err,
}
use atlas_manager.Scheduling.Errors.{SchedulingError, overlapping_weekly_availability_windows}
use atlas_manager.Scheduling.Weekday.{weekday_order}
use atlas_manager.Scheduling.LocalTime.{minute_of, str_lt-minute_of}
use atlas_manager.Scheduling.Window.{Window, IsWindow}
use atlas_manager.Scheduling.Schedule.{
  Schedule, insert_window, compare_windows, is_positive, sort_windows, windows_overlap,
  reject_overlapping_from, reject_overlapping, maximum_weekly_windows,
}
use atlas_manager.Scheduling.Schedule.Order.{StartsBefore, All-insert, All-sort}

-- `a` is on an earlier day, or ends on the same day before `b` starts.
abbrev pub EndsBefore : Window → Window → Type 0
EndsBefore a b =
    (weekday_order a.weekday < weekday_order b.weekday)
    ⊎ (weekday_order a.weekday ≡ weekday_order b.weekday) × (minute_of a.end ≤ minute_of b.start)

-- Two windows have no minute in common.
abbrev pub Apart : Window → Window → Type 0
Apart a b =
    (weekday_order a.weekday ≢ weekday_order b.weekday)
    ⊎ (minute_of a.end ≤ minute_of b.start)
    ⊎ (minute_of b.end ≤ minute_of a.start)

pub record IsCanonical (s : Schedule) : Type 0 where
  pub some_window : 0 < length s.windows
  pub bounded : length s.windows ≤ maximum_weekly_windows
  pub valid : All IsWindow s.windows
  pub ordered : Pairwise EndsBefore s.windows

EndsBefore-trans : (a b c : Window) → IsWindow b → EndsBefore a b → EndsBefore b c → EndsBefore a c
EndsBefore-trans a b c v h k = omega (arith, v.nonempty)

-- The test of two neighbours, read as an order of minutes.
apart_of_test :
    (a b : Window)
    → IsWindow a
    → IsWindow b
    → StartsBefore a b
    → windows_overlap a b ≡ false
    → EndsBefore a b
apart_of_test a b va vb s h =
    ground (arith, str_lt-minute_of b.start a.end vb.start_valid va.end_valid)

test_of_Apart :
    (a b : Window)
    → IsWindow a
    → IsWindow b
    → StartsBefore a b
    → Apart a b
    → windows_overlap a b ≡ false
test_of_Apart a b va vb s h =
    ground
      (arith, str_lt-minute_of b.start a.end vb.start_valid va.end_valid, va.nonempty, vb.nonempty)

-- The neighbours decide about all pairs.
chain :
    (a : Window) (ws : List Window)
    → IsWindow a
    → All IsWindow ws
    → All (StartsBefore a) ws × Pairwise StartsBefore ws
    → reject_overlapping_from a ws ≡ ok tt
    → All (EndsBefore a) ws × Pairwise EndsBefore ws
unfolding reject_overlapping_from
chain a [] va v s h = (tt, tt)
chain a (b ∷ ws) va v s h = elim (Bool-cases (windows_overlap a b)) [
  | inl e ↦ cc
  | inr e ↦
      let first = apart_of_test a b va v.0 s.0.0 e in
      let later = chain b ws v.0 v.1 s.1 (rw e at h) in
      (
        (
          first,
          All-map_imp (EndsBefore b) (EndsBefore a) ws (λ c. EndsBefore-trans a b c v.0 first)
              later.0,
        ),
        later,
      )
]

pub accepted :
    (a : Window) (ws : List Window)
    → IsWindow a
    → All IsWindow ws
    → All (StartsBefore a) ws × Pairwise StartsBefore ws
    → All (Apart a) ws × Pairwise Apart ws
    → reject_overlapping_from a ws ≡ ok tt
unfolding reject_overlapping_from
accepted a [] va v s h = refl
accepted a (b ∷ ws) va v s h =
    rw (test_of_Apart a b va v.0 s.0.0 h.0.0) (accepted b ws v.0 v.1 s.1 h.1)

All-uninsert {κ} :
    (P : Window → Type κ) (w : Window) (vs : List Window)
    → All P (insert_window w vs)
    → P w × All P vs
unfolding insert_window
All-uninsert P w [] h = h
All-uninsert P w (v ∷ vs) h = elim (Bool-cases (is_positive (compare_windows w v))) [
  | inl e ↦
      let h' : P v × All P (insert_window w vs) = rw e at h in
      let rest = All-uninsert P w vs h'.1 in (rest.0, (h'.0, rest.1))
  | inr e ↦ rw e at h
]

Apart-symm : (a b : Window) → Apart a b → Apart b a
Apart-symm a b h = omega arith

-- Whether all pairs are apart does not depend on the order.
insert-Apart :
    (w : Window) (vs : List Window)
    → All (Apart w) vs
    → Pairwise Apart vs
    → Pairwise Apart (insert_window w vs)
unfolding insert_window
insert-Apart w [] a p = (tt, tt)
insert-Apart w (v ∷ vs) a p = elim (Bool-cases (is_positive (compare_windows w v))) [
  | inl e ↦ rw e (All-insert (Apart v) w vs (Apart-symm w v a.0) p.0, insert-Apart w vs a.1 p.1)
  | inr e ↦ rw e (a, p)
]

insert-Apart_inv :
    (w : Window) (vs : List Window)
    → Pairwise Apart (insert_window w vs)
    → All (Apart w) vs × Pairwise Apart vs
unfolding insert_window
insert-Apart_inv w [] h = h
insert-Apart_inv w (v ∷ vs) h = elim (Bool-cases (is_positive (compare_windows w v))) [
  | inl e ↦
      let h' : All (Apart v) (insert_window w vs) × Pairwise Apart (insert_window w vs) =
        rw e at h in
      let around = All-uninsert (Apart v) w vs h'.0 in
      let rest = insert-Apart_inv w vs h'.1 in
      ((Apart-symm v w around.0, rest.0), (around.1, rest.1))
  | inr e ↦ rw e at h
]

pub sort-Apart : (ws : List Window) → Pairwise Apart ws → Pairwise Apart (sort_windows ws)
unfolding sort_windows
sort-Apart [] h = tt
sort-Apart (w ∷ ws) h =
    insert-Apart w (sort_windows ws) (All-sort (Apart w) ws h.0) (sort-Apart ws h.1)

All-unsort {κ} : (P : Window → Type κ) (ws : List Window) → All P (sort_windows ws) → All P ws
unfolding sort_windows
All-unsort P [] h = tt
All-unsort P (w ∷ ws) h =
    let rest = All-uninsert P w (sort_windows ws) h in (rest.0, All-unsort P ws rest.1)

pub sort-Apart_inv : (ws : List Window) → Pairwise Apart (sort_windows ws) → Pairwise Apart ws
unfolding sort_windows
sort-Apart_inv [] h = tt
sort-Apart_inv (w ∷ ws) h =
    let rest = insert-Apart_inv w (sort_windows ws) h in
    (All-unsort (Apart w) ws rest.0, sort-Apart_inv ws rest.1)

pub EndsBefore-Apart : (ws : List Window) → Pairwise EndsBefore ws → Pairwise Apart ws
EndsBefore-Apart [] h = tt
EndsBefore-Apart (w ∷ ws) h =
    (All-map_imp (EndsBefore w) (Apart w) ws (λ v k. omega arith) h.0, EndsBefore-Apart ws h.1)

pub reject_sorted :
    (ws : List Window)
    → All IsWindow ws
    → Pairwise StartsBefore ws
    → reject_overlapping ws ≡ ok tt
    → Pairwise EndsBefore ws
unfolding reject_overlapping
reject_sorted [] v s h = tt
reject_sorted (w ∷ ws) v s h = chain w ws v.0 v.1 s h

pub accept_sorted :
    (ws : List Window)
    → All IsWindow ws
    → Pairwise StartsBefore ws
    → Pairwise Apart ws
    → reject_overlapping ws ≡ ok tt
unfolding reject_overlapping
accept_sorted [] v s h = refl
accept_sorted (w ∷ ws) v s h = accepted w ws v.0 v.1 s h

reject_from-cases :
    (w : Window) (ws : List Window)
    → (reject_overlapping_from w ws ≡ ok tt)
      ⊎ (reject_overlapping_from w ws ≡ err overlapping_weekly_availability_windows)
unfolding reject_overlapping_from
reject_from-cases w [] = inl refl
reject_from-cases w (v ∷ vs) = ground (arith, reject_from-cases v vs)

pub reject-cases :
    (ws : List Window)
    → (reject_overlapping ws ≡ ok tt)
      ⊎ (reject_overlapping ws ≡ err overlapping_weekly_availability_windows)
unfolding reject_overlapping
reject-cases [] = inl refl
reject-cases (w ∷ ws) = reject_from-cases w ws

-- The windows of a schedule that is returned for `ws`.
abbrev pub ReturnsSorted : List Window → Result SchedulingError Schedule → Type 0
ReturnsSorted ws r = (s : Schedule) × (r ≡ ok s) × Perm s.windows ws × Pairwise EndsBefore s.windows
