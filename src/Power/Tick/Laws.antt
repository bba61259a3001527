-- ===== src/Power/Tick/Laws.antt =====
-- What a tick does to the cursor.
use atlas_manager.Base.{
  ◌≡◌, ◌≢◌, refl, sym, ap, ◌∙◌, inl, inr, Bool, true, false, List, [], Str, str_eq, str_lt, Option,
  some, none, Result, ok, err, str_eq→eq, if◌then◌else◌, all, arith,
}
use atlas_manager.Base.Platform.{Dates}
use atlas_manager.Power.Cursor.{
  Cursor, CursorError, create_cursor, AdvanceResult, advanced, conflict, advance, advance-cases,
  is_same_cursor, is_backward,
}
use atlas_manager.Power.Tick.Run.{all-IsPassed, RanAll, run_occurrences-RanAll}
use atlas_manager.Power.Tick.{
  Occurrence, Item, Report, TickError, cursor_error, TickResult, idle_result, blocked_result,
  incomplete_result, advanced_result, State, Services, is_complete_in_report, create_report,
  run_occurrences, report_advance, finish, after_pruning, after_report, process, ticked_cursor,
  tick_from, initialize, report_initialization, execute_core, is_complete, is_too_large,
  clock_regression, interval_too_large, conflict_at_first,
}

create_report-ok :
    (d : Dates) (a b : Str) (is : List Item) (c : Bool) (r : Report)
    → create_report d a b is c ≡ ok r
    → (r.occurrence_results ≡ is) × (r.complete ≡ all is_complete_in_report is)
unfolding create_report
create_report-ok d a b is c r h = ground arith

module _ {W : Type 0} (d : Dates) (services : Services W) (ticked_at : Str) where
  -- What a tick that advances the cursor has done.
  pub record Advances (prev next : Cursor) (report : Report) (s' : State W) : Type 0 where
    pub to_tick : next ≡ ticked_cursor d services ticked_at
    pub stored : s'.cursor ≡ some next
    pub later : str_lt prev.completed_through ticked_at ≡ true
    pub complete : report.complete ≡ true

  from_advance :
      (current : Cursor) (report report' : Report) (w : W) (s' : State W) (prev next : Cursor)
      (p : Option Cursor × Result CursorError AdvanceResult)
      → report_advance d services ticked_at current report w p
        ≡ (s', ok (advanced_result prev next report'))
      → (c : Cursor) × (p.1 ≡ ok (advanced c))
        × (current ≡ prev)
        × (report ≡ report')
        × (next ≡ ticked_cursor d services ticked_at)
        × (s'.cursor ≡ p.0)
        × (s'.world ≡ w)
  from_advance current report report' w s' prev next (stored, err e) h = cc
  from_advance current report report' w s' prev next (stored, ok (conflict c)) h = cc
  from_advance current report report' w s' prev next (stored, ok (advanced c)) h = (
    c,
    refl,
    cc,
    cc,
    cc,
    sym (ap (λ (r : State W × Result TickError TickResult). r.0.cursor) h),
    sym (ap (λ (r : State W × Result TickError TickResult). r.0.world) h),
  )

  later_than :
      (current next : Cursor) (stored : Option Cursor)
      → is_same_cursor (some current) stored ≡ true
      → is_backward next stored ≡ false
      → str_lt current.completed_through next.completed_through ≡ true
  later_than current next none h k = cc
  later_than current next (some c) h k =
      rw (str_eq→eq current.completed_through c.completed_through h) (ground arith)

  finish-Advances :
      (current : Cursor) (report report' : Report) (s s' : State W) (prev next : Cursor)
      → report.complete ≡ true
      → finish d services ticked_at current report s ≡ (s', ok (advanced_result prev next report'))
      → (current ≡ prev) × (report ≡ report') × Advances prev next report' s' × (s'.world ≡ s.world)
  unfolding finish
  finish-Advances current report report' s s' prev next c h =
      let ticked = ticked_cursor d services ticked_at in
      let (x, done, same, same', to_tick, kept, world) =
        from_advance current report report' s.world s' prev next
          (advance d (some current) ticked s.cursor) h in
      elim (advance-cases d (some current) ticked s.cursor) [
        | inl (stays, never) ↦ absurd (never x done)
        | inr (moves, expected, forward) ↦ (
          same,
          same',
          record {
            to_tick = to_tick;
            stored =
                kept
                ∙ ap (λ (r : Option Cursor × Result CursorError AdvanceResult). r.0) moves
                ∙ ap some (sym to_tick);
            later = rw (← same) (later_than current ticked s.cursor expected forward);
            complete = rw (← same') c;
          },
          world,
        )
      ]

  -- The claims were pruned up to the cursor, which left this state.
  abbrev IsPruned : State W × Result TickError (Unit {0}) → State W → Type 0
  IsPruned p s' = (left : State W) × (p ≡ (left, ok tt)) × (s'.world ≡ left.world)

  after_pruning-Advances :
      (current : Cursor) (report report' : Report) (s' : State W) (prev next : Cursor)
      (p : State W × Result TickError (Unit {0}))
      → after_pruning d services ticked_at current report p
        ≡ (s', ok (advanced_result prev next report'))
      → (current ≡ prev) × (report ≡ report') × Advances prev next report' s' × IsPruned p s'
  after_pruning-Advances current report report' s' prev next (s, err e) h = cc
  after_pruning-Advances current report report' s' prev next (s, ok u) h =
      branch report.complete refl h
    where
      branch :
          (b : Bool)
          → report.complete ≡ b
          → ◌≡◌ {A = State W × Result TickError TickResult}
              (elim b [
                | true ↦ finish d services ticked_at current report s
                | false ↦ (s, ok (incomplete_result current report))
              ])
              (s', ok (advanced_result prev next report'))
          → (current ≡ prev)
            × (report ≡ report')
            × Advances prev next report' s'
            × IsPruned (s, ok u) s'
      branch true c k =
          let (same, same', a, world) = finish-Advances current report report' s s' prev next c k in
          (same, same', a, (s, refl, world))
      branch false c k = cc

  after_report-Advances :
      (current : Cursor) (report' : Report) (s s' : State W) (prev next : Cursor)
      (r : Result TickError Report)
      → after_report d services ticked_at current s r ≡ (s', ok (advanced_result prev next report'))
      → (current ≡ prev)
        × (r ≡ ok report')
        × Advances prev next report' s'
        × IsPruned (services.prune_completed_through current s) s'
  after_report-Advances current report' s s' prev next (err e) h = cc
  after_report-Advances current report' s s' prev next (ok report) h =
      let (same, same', a, pruned) =
        after_pruning-Advances current report report' s' prev next
          (services.prune_completed_through current s) h in
      (same, ap ok same', a, pruned)

  -- The tick ran all occurrences of the interval, which left the state `after`, and then pruned the claims up to the
  -- previous cursor; the advance of the cursor leaves the rest of the world as it is.
  pub record Ran (prev : Cursor) (report : Report) (s s' : State W) : Type 0 where
    pub occurrences : List Occurrence
    pub after : State W
    pub in_interval : services.occurrences_for prev.completed_through ticked_at ≡ ok occurrences
    pub ran_all : RanAll d services ticked_at occurrences s after report.occurrence_results
    pub pruned :
        (left : State W) × (services.prune_completed_through prev after ≡ (left, ok tt))
        × (s'.world ≡ left.world)

  process-Advances :
      (current : Cursor) (occurrences : List Occurrence) (report : Report) (s s' : State W)
      (prev next : Cursor)
      → services.occurrences_for current.completed_through ticked_at ≡ ok occurrences
      → process d services ticked_at current occurrences s
        ≡ (s', ok (advanced_result prev next report))
      → (current ≡ prev) × Advances prev next report s' × Ran prev report s s'
  unfolding process
  process-Advances current occurrences report s s' prev next e h =
      let ran = run_occurrences d services ticked_at occurrences s in
      let made =
        create_report d current.completed_through ticked_at ran.1 (all is_complete ran.1) in
      let (same, r, a, pruned) = after_report-Advances current report ran.0 s' prev next made h in
      let (results, complete) =
        create_report-ok d current.completed_through ticked_at ran.1 (all is_complete ran.1) report
          r in
      (
        same,
        a,
        record {
          occurrences = occurrences;
          after = ran.0;
          in_interval = rw (← same) e;
          ran_all = rw results (
              run_occurrences-RanAll d services ticked_at occurrences s
                (all-IsPassed ran.1 (sym complete ∙ a.complete)));
          pruned = rw (← same) pruned;
        },
      )

  from_occurrences :
      (current : Cursor) (report : Report) (s s' : State W) (prev next : Cursor)
      (r : Result TickError (List Occurrence))
      → services.occurrences_for current.completed_through ticked_at ≡ r
      → ◌≡◌ {A = State W × Result TickError TickResult}
          (elim r [ err e ↦ (s, err e) | ok os ↦ process d services ticked_at current os s ])
          (s', ok (advanced_result prev next report))
      → (current ≡ prev) × Advances prev next report s' × Ran prev report s s'
  from_occurrences current report s s' prev next (err e) k h = cc
  from_occurrences current report s s' prev next (ok os) k h =
      process-Advances current os report s s' prev next k h

  tick_from-Advances :
      (current : Cursor) (report : Report) (s s' : State W) (prev next : Cursor)
      → tick_from d services ticked_at current s ≡ (s', ok (advanced_result prev next report))
      → (current ≡ prev) × Advances prev next report s' × Ran prev report s s'
  unfolding tick_from
  tick_from-Advances current report s s' prev next h =
      branches (str_eq ticked_at current.completed_through)
        (str_lt ticked_at current.completed_through)
        (is_too_large d services ticked_at (d.parse current.completed_through) (d.parse ticked_at))
        h
    where
      branches :
          (a b c : Bool)
          → ◌≡◌ {A = State W × Result TickError TickResult}
              (if a
                then (s, ok (idle_result current ticked_at))
                else if b
                then (s, ok (blocked_result current ticked_at clock_regression))
                else if c
                then (s, ok (blocked_result current ticked_at interval_too_large))
                else elim (services.occurrences_for current.completed_through ticked_at) [
                  | err e ↦ (s, err e)
                  | ok os ↦ process d services ticked_at current os s
                ])
              (s', ok (advanced_result prev next report))
          → (current ≡ prev) × Advances prev next report s' × Ran prev report s s'
      branches true b c k = cc
      branches false true c k = cc
      branches false false true k = cc
      branches false false false k =
          from_occurrences current report s s' prev next
            (services.occurrences_for current.completed_through ticked_at) refl k

  conflict-keeps :
      (stored : Option Cursor) (t s' : State W) (prev next : Cursor) (report : Report)
      (r : Result TickError Report)
      → conflict_at_first d services ticked_at stored t r
        ≢ (s', ok (advanced_result prev next report))
  conflict-keeps stored t s' prev next report (err e) h = cc
  conflict-keeps stored t s' prev next report (ok x) h = cc

  initialize-keeps :
      (w : W) (s' : State W) (prev next : Cursor) (report : Report)
      (p : Option Cursor × Result CursorError AdvanceResult)
      → report_initialization d services ticked_at w p ≢ (s', ok (advanced_result prev next report))
  initialize-keeps w s' prev next report (stored, err e) h = cc
  initialize-keeps w s' prev next report (stored, ok (advanced c)) h = cc
  initialize-keeps w s' prev next report (stored, ok (conflict c)) h =
      conflict-keeps c (record { cursor = stored; world = w }) s' prev next report
        (create_report d ticked_at ticked_at [] true) h

  initialize-never :
      (s s' : State W) (prev next : Cursor) (report : Report)
      → initialize d services ticked_at s ≢ (s', ok (advanced_result prev next report))
  unfolding initialize
  initialize-never s s' prev next report q =
      initialize-keeps s.world s' prev next report
        (advance d none (ticked_cursor d services ticked_at) s.cursor) q

  -- A tick that reports an advance found the previous cursor in the store, had the executor run every occurrence
  -- between that cursor and its own time, one after the other, each of which was executed, stale or a duplicate, then
  -- pruned the claims up to the previous cursor, and left its own time, which is later, as the cursor.
  pub execute_core-Advances :
      (s s' : State W) (prev next : Cursor) (report : Report)
      → execute_core d services ticked_at s ≡ (s', ok (advanced_result prev next report))
      → (s.cursor ≡ some prev) × Advances prev next report s' × Ran prev report s s'
  unfolding execute_core
  execute_core-Advances s s' prev next report h = branch (create_cursor d ticked_at) s.cursor refl h
    where
      branch :
          (r : Result CursorError Cursor) (c : Option Cursor)
          → s.cursor ≡ c
          → ◌≡◌ {A = State W × Result TickError TickResult}
              (elim r [
                | err e ↦ (s, err (cursor_error e))
                | ok x ↦ elim c [
                  | none ↦ initialize d services ticked_at s
                  | some cur ↦ tick_from d services ticked_at cur s
                ]
              ])
              (s', ok (advanced_result prev next report))
          → (s.cursor ≡ some prev) × Advances prev next report s' × Ran prev report s s'
      branch (err e) c k q = cc
      branch (ok x) none k q = absurd (initialize-never s s' prev next report q)
      branch (ok x) (some cur) k q =
          let (same, a, ran) = tick_from-Advances cur report s s' prev next q in
          (k ∙ ap some same, a, ran)
