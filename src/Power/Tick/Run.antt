-- ===== src/Power/Tick/Run.antt =====
-- The run of the occurrences of a tick, each of which has passed.
use atlas_manager.Base.{◌≡◌, refl, true, List, [], ◌∷◌, Str, All, all, arith}
use atlas_manager.Power.Tick.{
  Occurrence, ExecutionOutcome, Execution, result, execution_error, other_error, item_of, not_due,
  stale, duplicate, rejected, preparation_incomplete, executed, Item, completed_item, failed_item,
  rejected_item, State, Services, is_complete_in_report, run_occurrences,
}
use atlas_manager.Base.Platform.{Dates}

-- An occurrence that was executed, or that needs no execution any more.
pub data IsPassed : Item → Type 0 where
  was_executed : IsPassed (completed_item executed)
  was_stale : IsPassed (completed_item stale)
  was_duplicate : IsPassed (completed_item duplicate)

complete-IsPassed : (i : Item) → is_complete_in_report i ≡ true → IsPassed i
complete-IsPassed (completed_item executed) h = was_executed
complete-IsPassed (completed_item stale) h = was_stale
complete-IsPassed (completed_item duplicate) h = was_duplicate
complete-IsPassed (completed_item not_due) h = cc
complete-IsPassed (completed_item rejected) h = cc
complete-IsPassed (completed_item preparation_incomplete) h = cc
complete-IsPassed (failed_item o c) h = cc
complete-IsPassed (rejected_item o) h = cc

pub all-IsPassed : (is : List Item) → all is_complete_in_report is ≡ true → All IsPassed is
all-IsPassed [] h = tt
all-IsPassed (i ∷ is) h = (complete-IsPassed i (ground arith), all-IsPassed is (ground arith))

module _ {W : Type 0} (d : Dates) (services : Services W) (ticked_at : Str) where
  -- From one state to another, every occurrence of the list was given to the executor at the time of the tick, one
  -- after the other, and each was executed, stale or a duplicate; with the items that report it.
  pub data RanAll : List Occurrence → State W → State W → List Item → Type 0 where
    none_left : (s : State W) → RanAll [] s s []
    ran_next :
        (o : Occurrence) (os : List Occurrence) (s t u : State W) (r : ExecutionOutcome)
        (items : List Item)
        → services.execute_at o ticked_at s ≡ (t, result r)
        → IsPassed (completed_item r)
        → RanAll os t u items
        → RanAll (o ∷ os) s u (completed_item r ∷ items)

  item-RanAll :
      (o : Occurrence) (os : List Occurrence) (s t u : State W) (e : Execution) (items : List Item)
      → services.execute_at o ticked_at s ≡ (t, e)
      → IsPassed (item_of o e)
      → RanAll os t u items
      → RanAll (o ∷ os) s u (item_of o e ∷ items)
  item-RanAll o os s t u (result executed) items h p r = ran_next o os s t u executed items h p r
  item-RanAll o os s t u (result stale) items h p r = ran_next o os s t u stale items h p r
  item-RanAll o os s t u (result duplicate) items h p r = ran_next o os s t u duplicate items h p r
  item-RanAll o os s t u (result not_due) items h p r = ran_next o os s t u not_due items h p r
  item-RanAll o os s t u (result preparation_incomplete) items h p r =
      ran_next o os s t u preparation_incomplete items h p r
  item-RanAll o os s t u (result rejected) items h p r = elim p [ ]
  item-RanAll o os s t u (execution_error c) items h p r = elim p [ ]
  item-RanAll o os s t u other_error items h p r = elim p [ ]

  pub run_occurrences-RanAll :
      (os : List Occurrence) (s : State W)
      → All IsPassed (run_occurrences d services ticked_at os s).1
      → RanAll os s
          (run_occurrences d services ticked_at os s).0
          (run_occurrences d services ticked_at os s).1
  unfolding run_occurrences
  run_occurrences-RanAll [] s h = none_left s
  run_occurrences-RanAll (o ∷ os) s h =
      let tried = services.execute_at o ticked_at s in
      let later = run_occurrences d services ticked_at os tried.0 in
      item-RanAll o os s tried.0 later.0 tried.1 later.1 refl h.0
        (run_occurrences-RanAll os tried.0 h.1)
