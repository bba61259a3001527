-- ===== src/Power/Loop.antt =====
-- machine-power-scheduler-loop.ts: a tick, a timer, the next tick, until the loop is stopped or a tick ends it.
pub mod Laws
pub mod Examples
use atlas_manager.Base.{
  ℕ, ◌+◌, ◌≡◌, Bool, true, false, not, ◌&&◌, ◌||◌, List, [], ◌∷◌, Option, some, none, ◌==◌,
  if◌then◌else◌,
}

-- The kind of a tick's result; `invalid` is a value that is no result.
pub data TickResult : Type 0 where
  initialized idle advanced blocked incomplete conflict invalid : TickResult

pub data Completion : Type 0 where
  stopped failed : Completion
  blocked_by incomplete_by conflict_by : TickResult → Completion

-- What a call of the tick, the timer or a timer's handle does: it returns or it throws.
pub data Call : Type 0 where
  returns throws : Call

-- The fields of the loop, and the timer's callbacks that are not consumed. A timer is known by its number.
pub record Loop : Type 0 where
  pub started : Bool
  pub stop_requested : Bool
  pub tick_in_flight : Bool
  pub completion : Option Completion
  pub pending_timer : Option ℕ
  pub callbacks : List ℕ
  pub scheduled : ℕ

abbrev pub new_loop : Loop
new_loop = record {
  started = false;
  stop_requested = false;
  tick_in_flight = false;
  completion = none;
  pending_timer = none;
  callbacks = [];
  scheduled = 0;
}

abbrev pub is_completed : Loop → Bool
is_completed l = elim l.completion [ some c ↦ true | none ↦ false ]

-- The first completion is kept.
unfoldable pub complete : Completion → Loop → Loop
complete c l = if is_completed l then l else record l { completion = some c }

-- `call` is what `tick.execute()` does.
unfoldable pub run_next_tick : Call → Loop → Loop
unfolding complete
run_next_tick call l =
    if is_completed l || (l.stop_requested || l.tick_in_flight) then l else elim call [
      | returns ↦ record l { tick_in_flight = true }
      | throws ↦ complete failed (record l { tick_in_flight = false })
    ]

-- `call` is what `timer.schedule(delay, callback)` does.
unfoldable pub schedule_next_tick : Call → Loop → Loop
unfolding complete
schedule_next_tick returns l = record l {
  pending_timer = some l.scheduled;
  callbacks = l.scheduled ∷ l.callbacks;
  scheduled = l.scheduled + 1;
}
schedule_next_tick throws l = complete failed l

unfoldable pub handle_tick_result : Call → TickResult → Loop → Loop
unfolding complete schedule_next_tick
handle_tick_result call invalid l = complete failed l
handle_tick_result call blocked l = complete (blocked_by blocked) l
handle_tick_result call incomplete l = complete (incomplete_by incomplete) l
handle_tick_result call conflict l = complete (conflict_by conflict) l
handle_tick_result call r l =
    if l.stop_requested then complete stopped l else schedule_next_tick call l

-- The promise of the tick is fulfilled, or it is rejected.
unfoldable pub tick_resolved : Call → TickResult → Loop → Loop
unfolding handle_tick_result
tick_resolved call r l = handle_tick_result call r (record l { tick_in_flight = false })

unfoldable pub tick_rejected : Loop → Loop
unfolding complete
tick_rejected l = complete failed (record l { tick_in_flight = false })

abbrev pub holds : ℕ → List ℕ → Bool
holds n [] = false
holds n (m ∷ ms) = m == n || holds n ms

abbrev pub drop_callback : ℕ → List ℕ → List ℕ
drop_callback n [] = []
drop_callback n (m ∷ ms) = let rest = drop_callback n ms in if m == n then rest else m ∷ rest

-- A timer calls its callback, which does nothing the second time.
unfoldable pub timer_fired : Call → ℕ → Loop → Loop
unfolding run_next_tick
timer_fired call n l =
    if holds n l.callbacks
    then (let consumed = record l {
      callbacks = drop_callback n l.callbacks;
      pending_timer = none;
    } in
        if not (is_completed l) && not l.stop_requested
        then run_next_tick call consumed
        else consumed)
    else l

unfoldable pub start : Call → Loop → Loop
unfolding run_next_tick
start call l =
    if not l.started && not (is_completed l)
    then run_next_tick call (record l { started = true })
    else l

abbrev pub cancelled : Call → Completion
cancelled returns = stopped
cancelled throws = failed

-- `call` is what `pendingTimer.cancel()` does.
unfoldable pub stop : Call → Loop → Loop
unfolding complete
stop call l =
    if is_completed l
    then l
    else if not l.started
    then complete stopped (record l { stop_requested = true; started = true })
    else elim l.pending_timer [
      | some n ↦
          complete (cancelled call) (record l { stop_requested = true; pending_timer = none })
      | none ↦
          if not l.tick_in_flight
          then complete stopped (record l { stop_requested = true })
          else record l { stop_requested = true }
    ]

-- One event. The promise of a tick settles only while the tick is in flight; a timer may call its callback at
-- any time, even late or twice.
pub data Step : Loop → Loop → Type 0 where
  starts : (call : Call) (l : Loop) → Step l (start call l)
  stops : (call : Call) (l : Loop) → Step l (stop call l)
  resolves :
      (call : Call) (r : TickResult) (l : Loop)
      → l.tick_in_flight ≡ true
      → Step l (tick_resolved call r l)
  rejects : (l : Loop) → l.tick_in_flight ≡ true → Step l (tick_rejected l)
  fires : (call : Call) (n : ℕ) (l : Loop) → Step l (timer_fired call n l)

-- What can happen to a new loop.
pub data Reachable : Loop → Type 0 where
  new : Reachable new_loop
  next : {l l' : Loop} → Reachable l → Step l l' → Reachable l'
