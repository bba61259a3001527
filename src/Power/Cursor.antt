-- ===== src/Power/Cursor.antt =====
-- machine-power-scheduler-cursor.ts, and the store of infrastructure/in-memory-machine-power-scheduler-cursor-store.ts.
use atlas_manager.Base.{
  ◌≡◌, ◌≢◌, refl, ◌⊎◌, inl, inr, List, [], ◌∷◌, Bool, true, false, not, Str, str_eq, str_eq→eq,
  str_lt, str_lt_irrefl, str_lt_trans, Option, some, none, Result, ok, err, arith, if◌then◌else◌,
  Bool-cases,
}
use atlas_manager.Base.Values.{Value}
use atlas_manager.Base.Platform.{Dates, is_canonical_timestamp}

pub record Cursor : Type 0 where
  pub completed_through : Str

pub data CursorError : Type 0 where
  invalid_completed_through non_forward_cursor : CursorError

-- `createMachinePowerSchedulerCursor` on a record that has the one field.
unfoldable pub create_cursor : Dates → Str → Result CursorError Cursor
create_cursor d s = elim (is_canonical_timestamp d (Value.string s)) [
  | true ↦ ok (record { completed_through = s })
  | false ↦ err invalid_completed_through
]

abbrev pub is_same_cursor : Option Cursor → Option Cursor → Bool
is_same_cursor none none = true
is_same_cursor (some c) (some c') = str_eq c.completed_through c'.completed_through
is_same_cursor _ _ = false

pub data AdvanceResult : Type 0 where
  advanced : Cursor → AdvanceResult
  conflict : Option Cursor → AdvanceResult

abbrev pub is_backward : Cursor → Option Cursor → Bool
is_backward next none = false
is_backward next (some c) = not (str_lt c.completed_through next.completed_through)

-- `advance(expected, next)` on a store that holds `stored`, and what the store holds then.
unfoldable pub advance :
    Dates
    → Option Cursor
    → Cursor
    → Option Cursor
    → Option Cursor × Result CursorError AdvanceResult
unfolding create_cursor
advance d expected input stored = elim (create_cursor d input.completed_through) [
  | err e ↦ (stored, err e)
  | ok next ↦
      if not (is_same_cursor expected stored)
      then (stored, ok (conflict stored))
      else if is_backward next stored
      then (stored, err non_forward_cursor)
      else (some next, ok (advanced next))
]

-- The store's cursor changes only by an advance that reports success: from the expected cursor to a later one.
pub advance-cases :
    (d : Dates) (expected : Option Cursor) (next : Cursor) (stored : Option Cursor)
    → ((advance d expected next stored).0 ≡ stored)
        × ((c : Cursor) → (advance d expected next stored).1 ≢ ok (advanced c))
      ⊎ (advance d expected next stored ≡ (some next, ok (advanced next)))
        × (is_same_cursor expected stored ≡ true)
        × (is_backward next stored ≡ false)
unfolding advance create_cursor
advance-cases d expected next stored = ground arith

advance-conflict :
    (d : Dates) (expected : Option Cursor) (next : Cursor) (stored : Option Cursor) (c : Cursor)
    → is_same_cursor expected stored ≡ false
    → (advance d expected next stored).1 ≢ ok (advanced c)
advance-conflict d expected next stored c h = elim (advance-cases d expected next stored) [
  | inl (stays, never) ↦ never c
  | inr (moves, same, forward) ↦ λ e. cc
]

-- The store holds a cursor later than the expected one.
abbrev IsLater : Option Cursor → Option Cursor → Type 0
IsLater expected none = ⊥
IsLater none (some c) = Unit
IsLater (some e) (some c) = str_lt e.completed_through c.completed_through ≡ true

IsLater-not_same :
    (expected stored : Option Cursor)
    → IsLater expected stored
    → is_same_cursor expected stored ≡ false
IsLater-not_same none none h = absurd h
IsLater-not_same (some e) none h = refl
IsLater-not_same none (some c) h = refl
IsLater-not_same (some e) (some c) h =
    elim (Bool-cases (str_eq e.completed_through c.completed_through)) [
      | inl same ↦
          let loop : str_lt e.completed_through c.completed_through ≡ false =
            rw (← str_eq→eq e.completed_through c.completed_through same)
              (str_lt_irrefl e.completed_through) in
          ground arith
      | inr other ↦ other
    ]

-- Where the cursor moves, it moves from the expected one to a later one.
moved-IsLater :
    (expected stored : Option Cursor) (next : Cursor)
    → is_same_cursor expected stored ≡ true
    → is_backward next stored ≡ false
    → IsLater expected (some next)
moved-IsLater none stored next h k = tt
moved-IsLater (some e) none next h k = cc
moved-IsLater (some e) (some c) next h k =
    rw (str_eq→eq e.completed_through c.completed_through h) (ground arith)

forward-IsLater :
    (expected stored : Option Cursor) (next : Cursor)
    → is_backward next stored ≡ false
    → IsLater expected stored
    → IsLater expected (some next)
forward-IsLater expected none next k h = absurd h
forward-IsLater none (some c) next k h = tt
forward-IsLater (some e) (some c) next k h =
    str_lt_trans e.completed_through c.completed_through next.completed_through h (ground arith)

advance-IsLater :
    (d : Dates) (expected called stored : Option Cursor) (next : Cursor)
    → IsLater expected stored
    → IsLater expected (advance d called next stored).0
advance-IsLater d expected called stored next h = elim (advance-cases d called next stored) [
  | inl (stays, never) ↦ rw stays h
  | inr (moves, same, forward) ↦ rw moves (forward-IsLater expected stored next forward h)
]

-- What the store holds after a sequence of calls of `advance`, each with what it expects and the next cursor.
pub replay : Dates → List (Option Cursor × Cursor) → Option Cursor → Option Cursor
replay d [] stored = stored
replay d ((expected, next) ∷ calls) stored = replay d calls (advance d expected next stored).0

replay-IsLater :
    (d : Dates) (expected : Option Cursor) (calls : List (Option Cursor × Cursor))
    (stored : Option Cursor)
    → IsLater expected stored
    → IsLater expected (replay d calls stored)
unfolding replay
replay-IsLater d expected [] stored h = h
replay-IsLater d expected ((called, next) ∷ calls) stored h =
    replay-IsLater d expected calls (advance d called next stored).0
      (advance-IsLater d expected called stored next h)

-- Of two schedulers that have read the same cursor, only one advances it: once an advance from that cursor has
-- succeeded, no later advance from it does, whatever calls of `advance` come between the two.
pub advance-once :
    (d : Dates) (expected : Option Cursor) (next other c c' : Cursor) (stored : Option Cursor)
    (calls : List (Option Cursor × Cursor))
    → (advance d expected next stored).1 ≡ ok (advanced c)
    → (advance d expected other (replay d calls (advance d expected next stored).0)).1
      ≢ ok (advanced c')
advance-once d expected next other c c' stored calls h =
    elim (advance-cases d expected next stored) [
      | inl (stays, never) ↦ absurd (never c h)
      | inr (moves, same, forward) ↦ rw moves (
          advance-conflict d expected other (replay d calls (some next)) c' (
            IsLater-not_same expected (replay d calls (some next)) (
              replay-IsLater d expected calls (some next)
                (moved-IsLater expected stored next same forward))))
    ]
