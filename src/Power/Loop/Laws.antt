-- ===== src/Power/Loop/Laws.antt =====
-- The states that the scheduler's loop can reach.
use atlas_manager.Base.{
  ℕ, ◌≡◌, refl, ◌⊎◌, inl, inr, Bool, true, false, [], ◌∷◌, some, none, arith, if◌then◌else◌,
}
use atlas_manager.Power.Loop.{
  Loop, new_loop, Completion, TickResult, initialized, idle, advanced, blocked, incomplete,
  conflict, invalid, Call, returns, throws, is_completed, complete, run_next_tick,
  schedule_next_tick, handle_tick_result, tick_resolved, tick_rejected, timer_fired, start, stop,
  Step, starts, stops, resolves, rejects, fires, Reachable, new, next,
}

-- While it is not completed, a loop that was started has a tick in flight, or it waits for the timer alone; and
-- then no stop is asked for. A loop that was not started has neither.
pub record IsSound (l : Loop) : Type 0 where
  pub fresh :
      is_completed l ≡ false
      → l.started ≡ false
      → (l.tick_in_flight ≡ false)
        × (l.stop_requested ≡ false)
        × (l.pending_timer ≡ none)
        × (l.callbacks ≡ [])
  pub ticking :
      is_completed l ≡ false
      → l.started ≡ true
      → l.tick_in_flight ≡ true
      → (l.pending_timer ≡ none) × (l.callbacks ≡ [])
  pub waiting :
      is_completed l ≡ false
      → l.started ≡ true
      → l.tick_in_flight ≡ false
      → (l.stop_requested ≡ false) × (n : ℕ) × (l.pending_timer ≡ some n) × (l.callbacks ≡ n ∷ [])

new-IsSound : IsSound new_loop
new-IsSound = record {
  fresh = λ c s. (refl, refl, refl, refl);
  ticking = λ c s t. cc;
  waiting = λ c s t. cc;
}

start-IsSound : (call : Call) (l : Loop) → IsSound l → IsSound (start call l)
unfolding start run_next_tick complete
start-IsSound returns l h = record {
  fresh = λ c s. ground (arith, h.fresh);
  ticking = λ c s t. ground (arith, h.fresh, h.ticking);
  waiting = λ c s t. ground (arith, h.fresh, h.waiting);
}
start-IsSound throws l h = record {
  fresh = λ c s. ground (arith, h.fresh);
  ticking = λ c s t. ground (arith, h.fresh, h.ticking);
  waiting = λ c s t. ground (arith, h.fresh, h.waiting);
}

stop-IsSound : (call : Call) (l : Loop) → IsSound l → IsSound (stop call l)
unfolding stop complete
stop-IsSound call l h = record {
  fresh = λ c s. ground (arith, h.fresh);
  ticking = λ c s t. ground (arith, h.fresh, h.ticking, h.waiting);
  waiting = λ c s t. ground (arith, h.fresh, h.ticking, h.waiting);
}

tick_rejected-IsSound : (l : Loop) → IsSound l → IsSound (tick_rejected l)
unfolding tick_rejected complete
tick_rejected-IsSound l h = record {
  fresh = λ c s. ground (arith, h.fresh);
  ticking = λ c s t. ground (arith, h.fresh, h.ticking, h.waiting);
  waiting = λ c s t. ground (arith, h.fresh, h.ticking, h.waiting);
}

-- What follows a tick, once it is no longer in flight.
record IsSettled (l : Loop) : Type 0 where
  landed : l.tick_in_flight ≡ false
  was_started : is_completed l ≡ false → l.started ≡ true
  no_timer : is_completed l ≡ false → (l.pending_timer ≡ none) × (l.callbacks ≡ [])

complete-IsSound : (c : Completion) (l : Loop) → IsSound l ⊎ IsSettled l → IsSound (complete c l)
unfolding complete
complete-IsSound c l h = record {
  fresh = λ c s. ground arith;
  ticking = λ c s t. ground arith;
  waiting = λ c s t. ground arith;
}

schedule_next_tick-IsSound :
    (call : Call) (l : Loop)
    → IsSettled l
    → l.stop_requested ≡ false
    → IsSound (schedule_next_tick call l)
unfolding schedule_next_tick
schedule_next_tick-IsSound throws l h g = complete-IsSound _ l (inr h)
schedule_next_tick-IsSound returns l h g = record {
  fresh = λ c s. ground (arith, h.was_started);
  ticking = λ c s t. ground (arith, h.landed);
  waiting = λ c s t. (g, l.scheduled, refl, ground (arith, h.no_timer));
}

goes_on :
    (call : Call) (l : Loop)
    → IsSettled l
    → IsSound
        (if l.stop_requested then complete Completion.stopped l else schedule_next_tick call l)
goes_on call l h = branch l.stop_requested refl
  where
    branch :
        (b : Bool)
        → l.stop_requested ≡ b
        → IsSound (if b then complete Completion.stopped l else schedule_next_tick call l)
    branch true e = complete-IsSound Completion.stopped l (inr h)
    branch false e = schedule_next_tick-IsSound call l h e

handle_tick_result-IsSound :
    (call : Call) (r : TickResult) (l : Loop) → IsSettled l → IsSound (handle_tick_result call r l)
unfolding handle_tick_result
handle_tick_result-IsSound call invalid l h = complete-IsSound _ l (inr h)
handle_tick_result-IsSound call blocked l h = complete-IsSound _ l (inr h)
handle_tick_result-IsSound call incomplete l h = complete-IsSound _ l (inr h)
handle_tick_result-IsSound call conflict l h = complete-IsSound _ l (inr h)
handle_tick_result-IsSound call initialized l h = goes_on call l h
handle_tick_result-IsSound call idle l h = goes_on call l h
handle_tick_result-IsSound call advanced l h = goes_on call l h

tick_resolved-IsSound :
    (call : Call) (r : TickResult) (l : Loop)
    → IsSound l
    → l.tick_in_flight ≡ true
    → IsSound (tick_resolved call r l)
unfolding tick_resolved
tick_resolved-IsSound call r l h t =
    handle_tick_result-IsSound call r (record l { tick_in_flight = false })
      (record {
        landed = refl;
        was_started = λ c. ground (arith, h.fresh);
        no_timer = λ c. ground (arith, h.fresh, h.ticking);
      })

timer_fired-IsSound : (call : Call) (n : ℕ) (l : Loop) → IsSound l → IsSound (timer_fired call n l)
unfolding timer_fired run_next_tick complete
timer_fired-IsSound returns n l h = record {
  fresh = λ c s. ground (arith, h.fresh);
  ticking = λ c s t. ground (arith, h.fresh, h.ticking, h.waiting);
  waiting = λ c s t. ground (arith, h.fresh, h.ticking, h.waiting);
}
timer_fired-IsSound throws n l h = record {
  fresh = λ c s. ground (arith, h.fresh);
  ticking = λ c s t. ground (arith, h.fresh, h.ticking, h.waiting);
  waiting = λ c s t. ground (arith, h.fresh, h.ticking, h.waiting);
}

Step-IsSound : {l l' : Loop} → IsSound l → Step l l' → IsSound l'
Step-IsSound h (starts call l) = start-IsSound call l h
Step-IsSound h (stops call l) = stop-IsSound call l h
Step-IsSound h (resolves call r l t) = tick_resolved-IsSound call r l h t
Step-IsSound h (rejects l t) = tick_rejected-IsSound l h
Step-IsSound h (fires call n l) = timer_fired-IsSound call n l h

-- Whatever happens to the loop, while it is started and not completed either one tick is in flight and no timer
-- is pending, or exactly one timer with a live callback is pending, and then no stop is asked for: the loop never
-- runs two ticks at once, and it never rests without a timer.
pub Reachable-IsSound : {l : Loop} → Reachable l → IsSound l
Reachable-IsSound new = new-IsSound
Reachable-IsSound (next r s) = Step-IsSound (Reachable-IsSound r) s

is_completed-some : (l : Loop) (c : Completion) → l.completion ≡ some c → is_completed l ≡ true
is_completed-some l c e = rw e

handle-completed :
    (call : Call) (r : TickResult) (l : Loop) (c : Completion)
    → l.completion ≡ some c
    → ((handle_tick_result call r l).completion ≡ some c)
      × ((handle_tick_result call r l).tick_in_flight ≡ l.tick_in_flight)
unfolding handle_tick_result schedule_next_tick complete
handle-completed call r l c e = let done = is_completed-some l c e in ground arith

-- A completed loop keeps its completion and starts no tick, whatever happens.
pub Step-completed :
    {l l' : Loop} (c : Completion)
    → Step l l'
    → l.completion ≡ some c
    → (l'.completion ≡ some c) × (l.tick_in_flight ≡ false → l'.tick_in_flight ≡ false)
unfolding start stop tick_resolved tick_rejected timer_fired run_next_tick complete
    handle_tick_result schedule_next_tick
Step-completed c (starts call l) e = let done = is_completed-some l c e in ground arith
Step-completed c (stops call l) e = let done = is_completed-some l c e in ground arith
Step-completed c (resolves call r l t) e =
    let done = is_completed-some l c e in
    let after = handle-completed call r (record l { tick_in_flight = false }) c e in
    (after.0, λ off. after.1)
Step-completed c (rejects l t) e = let done = is_completed-some l c e in ground arith
Step-completed c (fires call n l) e = let done = is_completed-some l c e in ground arith

complete-is_completed : (c : Completion) (l : Loop) → is_completed (complete c l) ≡ true
unfolding complete
complete-is_completed c l = ground arith

-- Once a stop is asked for, every result of a tick completes the loop.
handle-stops :
    (call : Call) (r : TickResult) (l : Loop)
    → l.stop_requested ≡ true
    → is_completed (handle_tick_result call r l) ≡ true
unfolding handle_tick_result
handle-stops call initialized l e = rw e (complete-is_completed _ _)
handle-stops call idle l e = rw e (complete-is_completed _ _)
handle-stops call advanced l e = rw e (complete-is_completed _ _)
handle-stops call blocked l e = complete-is_completed _ l
handle-stops call incomplete l e = complete-is_completed _ l
handle-stops call conflict l e = complete-is_completed _ l
handle-stops call invalid l e = complete-is_completed _ l

stop-cases :
    (call : Call) (l : Loop)
    → (is_completed (stop call l) ≡ true)
      ⊎ (((stop call l).tick_in_flight ≡ true) × ((stop call l).stop_requested ≡ true))
unfolding stop complete
stop-cases call l = ground arith

-- A stop ends a loop at once, or it ends it when the tick that is in flight settles, however that tick ends.
pub stop_ends :
    (l : Loop) (call : Call)
    → (is_completed (stop call l) ≡ true)
      ⊎ (((stop call l).tick_in_flight ≡ true)
          × ((call' : Call) (r : TickResult)
              → is_completed (tick_resolved call' r (stop call l)) ≡ true)
          × (is_completed (tick_rejected (stop call l)) ≡ true))
unfolding tick_resolved tick_rejected
stop_ends l call = elim (stop-cases call l) [
  | inl done ↦ inl done
  | inr (flying, asked) ↦ inr (
    flying,
    (λ call' r. handle-stops call' r (record (stop call l) { tick_in_flight = false }) asked),
    complete-is_completed _ _,
  )
]
