-- ===== src/Power/Loop/Examples.antt =====
-- A loop that is started, whose first tick advances, and that is stopped while it waits for the timer.
use atlas_manager.Base.{◌≡◌, refl, ◌⊎◌, true, false, some}
use atlas_manager.Power.Loop.{
  Loop, new_loop, Completion, TickResult, advanced, Call, returns, is_completed, tick_resolved,
  tick_rejected, start, stop, timer_fired, starts, resolves, fires, Reachable, new, next,
}
use atlas_manager.Power.Loop.Laws.{IsSound, Reachable-IsSound, Step-completed, stop_ends}

abbrev waiting : Loop
waiting = tick_resolved returns advanced (start returns new_loop)

waiting-Reachable : Reachable waiting
unfolding start
waiting-Reachable =
    next (next new (starts returns new_loop))
      (resolves returns advanced (start returns new_loop) refl)

abbrev ended : Loop
ended = stop returns waiting

ended_stopped : ended.completion ≡ some Completion.stopped
unfolding stop tick_resolved start
ended_stopped = refl

Reachable-IsSound_example : IsSound waiting
Reachable-IsSound_example = Reachable-IsSound waiting-Reachable

Step-completed_example :
    ((timer_fired returns 0 ended).completion ≡ some Completion.stopped)
    × (ended.tick_in_flight ≡ false → (timer_fired returns 0 ended).tick_in_flight ≡ false)
Step-completed_example = Step-completed Completion.stopped (fires returns 0 ended) ended_stopped

stop_ends_example :
    (is_completed (stop returns (start returns new_loop)) ≡ true)
    ⊎ (((stop returns (start returns new_loop)).tick_in_flight ≡ true)
        × ((call' : Call) (r : TickResult)
            → is_completed (tick_resolved call' r (stop returns (start returns new_loop))) ≡ true)
        × (is_completed (tick_rejected (stop returns (start returns new_loop))) ≡ true))
stop_ends_example = stop_ends (start returns new_loop) returns
