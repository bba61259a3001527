-- ===== src/Power/Tick.antt =====
-- run-machine-power-scheduler-tick.ts: one tick of the scheduler, and the report of
-- domain/machine-power-scheduler-report.ts. The policy's shutdown occurrences, the executor of an occurrence and
-- the claims are services; what they do is a function of the state, in which the cursor can change too.
pub mod Run
pub mod Laws
use atlas_manager.Base.{
  ℕ, ◌*◌, ◌≡◌, Bool, true, false, not, ◌&&◌, ◌||◌, List, [], ◌∷◌, Str, str_eq, str_lt, Option, some,
  none, Result, ok, err, if◌then◌else◌, all,
}
use atlas_manager.Base.Int.{ℤ, pos, ltb_ℤ, ◌-ℤ◌}
use atlas_manager.Base.Values.{Value}
use atlas_manager.Base.Platform.{Dates, is_canonical_timestamp}
use atlas_manager.Power.Cursor.{
  Cursor, CursorError, create_cursor, AdvanceResult, advanced, conflict, advance,
}

pub record Occurrence : Type 0 where
  pub scheduled_for : Str
  pub wake_scheduled_for : Str

pub data ExecutionOutcome : Type 0 where
  not_due stale duplicate rejected preparation_incomplete executed : ExecutionOutcome

pub data FailureCode : Type 0 where
  claim_failed wake_alarm_preparation_failed : FailureCode
  shutdown_failed_after_wake_scheduled unexpected_execution_failure : FailureCode

-- What `executeAt` does: a result, an execution error with its code, or another error.
pub data Execution : Type 0 where
  result : ExecutionOutcome → Execution
  execution_error : FailureCode → Execution
  other_error : Execution

pub data Item : Type 0 where
  completed_item : ExecutionOutcome → Item
  failed_item : Occurrence → FailureCode → Item
  rejected_item : Occurrence → Item

pub record Report : Type 0 where
  pub completed_through : Str
  pub ticked_through : Str
  pub occurrence_results : List Item
  pub complete : Bool

pub data TickError : Type 0 where
  cursor_error : CursorError → TickError
  invalid_report interval_failed pruning_failed : TickError

pub data BlockReason : Type 0 where
  clock_regression interval_too_large : BlockReason

pub data TickResult : Type 0 where
  initialized_result : Cursor → TickResult
  idle_result : Cursor → Str → TickResult
  blocked_result : Cursor → Str → BlockReason → TickResult
  incomplete_result : Cursor → Report → TickResult
  conflict_result : Option Cursor → Cursor → Option Cursor → Report → TickResult
  advanced_result : Cursor → Cursor → Report → TickResult

pub record State (W : Type 0) : Type 0 where
  pub cursor : Option Cursor
  pub world : W

pub record Services (W : Type 0) : Type 0 where
  pub occurrences_for : Str → Str → Result TickError (List Occurrence)
  pub execute_at : Occurrence → Str → State W → State W × Execution
  pub prune_completed_through : Cursor → State W → State W × Result TickError (Unit {0})

abbrev pub maximum_interval : ℕ
maximum_interval = 8 * 24 * 60 * 60 * 1000

abbrev pub item_of : Occurrence → Execution → Item
item_of o (result rejected) = rejected_item o
item_of o (result r) = completed_item r
item_of o (execution_error c) = failed_item o c
item_of o other_error = failed_item o unexpected_execution_failure

-- The outcome lets the scheduler pass the occurrence.
abbrev pub is_passed : ExecutionOutcome → Bool
is_passed preparation_incomplete = false
is_passed not_due = false
is_passed r = true

-- The test of the tick, and the one with which the report checks it.
abbrev pub is_complete : Item → Bool
is_complete (completed_item r) = is_passed r
is_complete i = false

abbrev pub is_complete_in_report : Item → Bool
is_complete_in_report (completed_item rejected) = false
is_complete_in_report (completed_item r) = is_passed r
is_complete_in_report i = false

abbrev pub is_reversed : Option ℤ → Option ℤ → Bool
is_reversed (some a) (some b) = ltb_ℤ b a
is_reversed _ _ = false

abbrev pub bool_eq : Bool → Bool → Bool
bool_eq true b = b
bool_eq false b = not b

unfoldable pub create_report : Dates → Str → Str → List Item → Bool → Result TickError Report
create_report d completed_through ticked_through items complete =
    if (not (is_canonical_timestamp d (Value.string completed_through))
        || not (is_canonical_timestamp d (Value.string ticked_through)))
      || (not (bool_eq complete (all is_complete_in_report items))
          || is_reversed (d.parse completed_through) (d.parse ticked_through))
    then err invalid_report
    else ok (record {
      completed_through = completed_through;
      ticked_through = ticked_through;
      occurrence_results = items;
      complete = all is_complete_in_report items;
    })

module _ {W : Type 0} (d : Dates) (services : Services W) (ticked_at : Str) where
  -- The loop over the occurrences: an error makes an item, it does not end the loop.
  unfoldable pub run_occurrences : List Occurrence → State W → State W × List Item
  run_occurrences [] s = (s, [])
  run_occurrences (o ∷ os) s =
      let (s', e) = services.execute_at o ticked_at s in
      let (s'', items) = run_occurrences os s' in (s'', item_of o e ∷ items)

  abbrev pub ticked_cursor : Cursor
  ticked_cursor = record { completed_through = ticked_at }

  -- The last step: the cursor is advanced.
  abbrev pub report_advance :
      Cursor
      → Report
      → W
      → Option Cursor × Result CursorError AdvanceResult
      → State W × Result TickError TickResult
  report_advance current report w (stored, err e) =
      (record { cursor = stored; world = w }, err (cursor_error e))
  report_advance current report w (stored, ok (advanced c)) =
      (record { cursor = stored; world = w }, ok (advanced_result current ticked_cursor report))
  report_advance current report w (stored, ok (conflict c)) = (
    record { cursor = stored; world = w },
    ok (conflict_result (some current) ticked_cursor c report),
  )

  unfoldable pub finish : Cursor → Report → State W → State W × Result TickError TickResult
  finish current report s =
      report_advance current report s.world (advance d (some current) ticked_cursor s.cursor)

  -- The claims are pruned, and a tick that is not complete ends here.
  abbrev pub after_pruning :
      Cursor
      → Report
      → State W × Result TickError (Unit {0})
      → State W × Result TickError TickResult
  after_pruning current report (s, err e) = (s, err e)
  after_pruning current report (s, ok _) = elim report.complete [
    | true ↦ finish current report s
    | false ↦ (s, ok (incomplete_result current report))
  ]

  abbrev pub after_report :
      Cursor → State W → Result TickError Report → State W × Result TickError TickResult
  after_report current s (err e) = (s, err e)
  after_report current s (ok report) =
      after_pruning current report (services.prune_completed_through current s)

  unfoldable pub process :
      Cursor → List Occurrence → State W → State W × Result TickError TickResult
  process current occurrences s =
      let ran = run_occurrences occurrences s in
      after_report current ran.0
        (create_report d current.completed_through ticked_at ran.1 (all is_complete ran.1))

  abbrev pub is_too_large : Option ℤ → Option ℤ → Bool
  is_too_large (some from) (some to) = ltb_ℤ (pos maximum_interval) (to -ℤ from)
  is_too_large _ _ = false

  unfoldable pub tick_from : Cursor → State W → State W × Result TickError TickResult
  unfolding process
  tick_from current s =
      if str_eq ticked_at current.completed_through
      then (s, ok (idle_result current ticked_at))
      else if str_lt ticked_at current.completed_through
      then (s, ok (blocked_result current ticked_at clock_regression))
      else if is_too_large (d.parse current.completed_through) (d.parse ticked_at)
      then (s, ok (blocked_result current ticked_at interval_too_large))
      else elim (services.occurrences_for current.completed_through ticked_at) [
        | err e ↦ (s, err e)
        | ok occurrences ↦ process current occurrences s
      ]

  -- The first tick stores the cursor.
  abbrev pub conflict_at_first :
      Option Cursor → State W → Result TickError Report → State W × Result TickError TickResult
  conflict_at_first stored s (err e) = (s, err e)
  conflict_at_first stored s (ok report) =
      (s, ok (conflict_result none ticked_cursor stored report))

  abbrev pub report_initialization :
      W → Option Cursor × Result CursorError AdvanceResult → State W × Result TickError TickResult
  report_initialization w (stored, err e) =
      (record { cursor = stored; world = w }, err (cursor_error e))
  report_initialization w (stored, ok (advanced c)) =
      (record { cursor = stored; world = w }, ok (initialized_result ticked_cursor))
  report_initialization w (stored, ok (conflict c)) =
      conflict_at_first c (record { cursor = stored; world = w })
        (create_report d ticked_at ticked_at [] true)

  unfoldable pub initialize : State W → State W × Result TickError TickResult
  initialize s = report_initialization s.world (advance d none ticked_cursor s.cursor)

  unfoldable pub execute_core : State W → State W × Result TickError TickResult
  unfolding initialize tick_from
  execute_core s = elim (create_cursor d ticked_at) [
    | err e ↦ (s, err (cursor_error e))
    | ok ticked ↦ elim s.cursor [ none ↦ initialize s | some current ↦ tick_from current s ]
  ]
