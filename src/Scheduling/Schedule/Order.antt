-- ===== src/Scheduling/Schedule/Order.antt =====
-- The sort of the windows by week day and start.
use mathlib.Core.List.{Perm}
use mathlib.Core.List.Perm
use atlas_manager.Base.{
  ◌≤◌, ◌<◌, ◌≡◌, ◌⊎◌, inl, inr, true, false, List, [], ◌∷◌, arith, All, Pairwise, All-map_imp,
  Bool-cases,
}
use atlas_manager.Scheduling.Weekday.{weekday_order}
use atlas_manager.Scheduling.LocalTime.{minute_of, str_lt-minute_of}
use atlas_manager.Scheduling.Window.{Window, IsWindow}
use atlas_manager.Scheduling.Schedule.{compare_windows, is_positive, insert_window, sort_windows}

-- Sorted by week day, then by start.
abbrev pub StartsBefore : Window → Window → Type 0
StartsBefore a b =
    (weekday_order a.weekday < weekday_order b.weekday)
    ⊎ (weekday_order a.weekday ≡ weekday_order b.weekday) × (minute_of a.start ≤ minute_of b.start)

compare-StartsBefore :
    (a b : Window)
    → IsWindow a
    → IsWindow b
    → is_positive (compare_windows a b) ≡ false
    → StartsBefore a b
unfolding compare_windows
compare-StartsBefore a b va vb h = ground (
  arith,
  str_lt-minute_of a.start b.start va.start_valid vb.start_valid,
  str_lt-minute_of b.start a.start vb.start_valid va.start_valid,
)

compare-StartsBefore_flip :
    (a b : Window)
    → IsWindow a
    → IsWindow b
    → is_positive (compare_windows a b) ≡ true
    → StartsBefore b a
unfolding compare_windows
compare-StartsBefore_flip a b va vb h = ground (
  arith,
  str_lt-minute_of a.start b.start va.start_valid vb.start_valid,
  str_lt-minute_of b.start a.start vb.start_valid va.start_valid,
)

StartsBefore-trans : (a b c : Window) → StartsBefore a b → StartsBefore b c → StartsBefore a c
StartsBefore-trans a b c h k = omega arith

-- The sort moves a property of all elements with them, in both directions.
pub All-insert {κ} :
    (P : Window → Type κ) (w : Window) (vs : List Window)
    → P w
    → All P vs
    → All P (insert_window w vs)
unfolding insert_window
All-insert P w [] p h = (p, tt)
All-insert P w (v ∷ vs) p h = elim (Bool-cases (is_positive (compare_windows w v))) [
  | inl e ↦ rw e (h.0, All-insert P w vs p h.1)
  | inr e ↦ rw e (p, h)
]

pub All-sort {κ} : (P : Window → Type κ) (ws : List Window) → All P ws → All P (sort_windows ws)
unfolding sort_windows
All-sort P [] h = tt
All-sort P (w ∷ ws) h = All-insert P w (sort_windows ws) h.0 (All-sort P ws h.1)

insert-sorted :
    (w : Window) (vs : List Window)
    → IsWindow w
    → All IsWindow vs
    → Pairwise StartsBefore vs
    → Pairwise StartsBefore (insert_window w vs)
unfolding insert_window
insert-sorted w [] x h s = (tt, tt)
insert-sorted w (v ∷ vs) x h s = elim (Bool-cases (is_positive (compare_windows w v))) [
  | inl e ↦ rw e (
    All-insert (StartsBefore v) w vs (compare-StartsBefore_flip w v x h.0 e) s.0,
    insert-sorted w vs x h.1 s.1,
  )
  | inr e ↦
      let first = compare-StartsBefore w v x h.0 e in
      rw e (
        (
          first,
          All-map_imp (StartsBefore v) (StartsBefore w) vs (λ u. StartsBefore-trans w v u first)
              s.0,
        ),
        s,
      )
]

pub sort-sorted : (ws : List Window) → All IsWindow ws → Pairwise StartsBefore (sort_windows ws)
unfolding sort_windows
sort-sorted [] h = tt
sort-sorted (w ∷ ws) h =
    insert-sorted w (sort_windows ws) h.0 (All-sort IsWindow ws h.1) (sort-sorted ws h.1)

insert-perm : (w : Window) (vs : List Window) → Perm (insert_window w vs) (w ∷ vs)
unfolding insert_window
insert-perm w [] = Perm.refl _
insert-perm w (v ∷ vs) = elim (Bool-cases (is_positive (compare_windows w v))) [
  | inl e ↦ rw e (Perm.trans (Perm.cons v (insert-perm w vs)) (Perm.swap w v vs))
  | inr e ↦ rw e (Perm.refl _)
]

-- The sorted list holds the given windows, each as often as it was given.
pub sort-perm : (ws : List Window) → Perm (sort_windows ws) ws
unfolding sort_windows
sort-perm [] = Perm.refl _
sort-perm (w ∷ ws) = Perm.trans (insert-perm w (sort_windows ws)) (Perm.cons w (sort-perm ws))
