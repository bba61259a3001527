-- ===== src/Power/Interval.antt =====
-- machine-shutdown-occurrence-interval.ts: the shutdowns that fall between two ticks.
pub mod Laws
use atlas_manager.Base.{
  ℕ, zero, suc, ◌+◌, ◌*◌, ◌/◌, ◌≡◌, Bool, true, false, not, ◌&&◌, ◌||◌, List, [], ◌∷◌, ◌++◌, Str,
  lit, str_eq, str_lt, Option, some, none, Result, ok, err, ◌>>=◌, ◌>>◌, throw_if, any,
  if◌then◌else◌, ◌==◌,
}
use atlas_manager.Base.Int.{ℤ, pos, negsuc, leb_ℤ, ltb_ℤ, ◌+ℤ◌, ◌-ℤ◌}
use atlas_manager.Base.Values.{Value, find_name}
use atlas_manager.Base.Platform.{Dates, Zone, find_part, is_canonical_timestamp}
use atlas_manager.Power.Tick.{Occurrence}

pub record OperatingWindow : Type 0 where
  pub day_of_week : Str
  pub start : Str
  pub end : Str

pub data OperatingPolicy : Type 0 where
  always_on manual : OperatingPolicy
  scheduled : Str → List OperatingWindow → OperatingPolicy

pub data IntervalError : Type 0 where
  invalid_completed_through invalid_ticked_through reversed_interval : IntervalError
  interval_too_large search_exhausted : IntervalError
  invalid_scheduled_for invalid_wake_scheduled_for invalid_timestamp_order : IntervalError
  out_of_fuel : IntervalError

abbrev pub minute : ℕ
minute = 60000

abbrev pub horizon : ℕ
horizon = 8 * 24 * 60 * minute

abbrev pub days : List (Str × Str)
days =
    (lit "Monday", lit "monday")
    ∷ (lit "Tuesday", lit "tuesday")
    ∷ (lit "Wednesday", lit "wednesday")
    ∷ (lit "Thursday", lit "thursday")
    ∷ (lit "Friday", lit "friday")
    ∷ (lit "Saturday", lit "saturday")
    ∷ (lit "Sunday", lit "sunday")
    ∷ []

abbrev pub is_day : Str → Str → Bool
is_day weekday day = elim (find_name days weekday) [ some name ↦ str_eq day name | none ↦ false ]

abbrev pub covers_time : Str → Str → OperatingWindow → Bool
covers_time weekday local w =
    is_day weekday w.day_of_week && (not (str_lt local w.start) && str_lt local w.end)

unfoldable pub is_operating : Zone → Str → List OperatingWindow → ℤ → Bool
is_operating zone timezone windows t =
    let parts = zone.format_to_parts timezone t in
    elim (find_part parts (lit "weekday")) [
      | none ↦ false
      | some weekday ↦ elim (find_part parts (lit "hour")) [
        | none ↦ false
        | some hour ↦ elim (find_part parts (lit "minute")) [
          | none ↦ false
          | some m ↦ any (covers_time weekday (hour ++ (lit ":" ++ m))) windows
        ]
      ]
    ]

-- The checks of `createMachineShutdownOccurrence` on a record of its three fields.
unfoldable pub create_occurrence : Dates → Str → Str → Result IntervalError Occurrence
create_occurrence d scheduled_for wake_scheduled_for = do
  throw_if (not (is_canonical_timestamp d (Value.string scheduled_for))) invalid_scheduled_for
  throw_if (not (is_canonical_timestamp d (Value.string wake_scheduled_for)))
      invalid_wake_scheduled_for
  throw_if (is_not_before (d.parse scheduled_for) (d.parse wake_scheduled_for))
      invalid_timestamp_order
  ok (record { scheduled_for = scheduled_for; wake_scheduled_for = wake_scheduled_for })
  where
    is_not_before : Option ℤ → Option ℤ → Bool
    is_not_before (some a) (some b) = leb_ℤ b a
    is_not_before a b = false

module _ (d : Dates) (zone : Zone) (timezone : Str) (windows : List OperatingWindow) where
  -- The loop of `findNextOperatingStart`; it ends within 11520 rounds.
  unfoldable pub find_next_from : ℕ → ℤ → ℤ → Option ℤ
  find_next_from zero candidate limit = none
  find_next_from (suc fuel) candidate limit =
      let later = find_next_from fuel (candidate +ℤ pos minute) limit in
      if leb_ℤ candidate limit
      then (if not (is_operating zone timezone windows (candidate -ℤ pos minute))
            && is_operating zone timezone windows candidate
          then some candidate
          else later)
      else none

  unfoldable pub find_next_operating_start : ℤ → ℤ → Option ℤ
  find_next_operating_start from limit = find_next_from 11521 (from +ℤ pos minute) limit

  -- One round of the loop over the candidates: what is pushed.
  unfoldable pub shutdown_at : ℤ → Result IntervalError (List Occurrence)
  shutdown_at candidate =
      if is_operating zone timezone windows (candidate -ℤ pos minute)
        && not (is_operating zone timezone windows candidate)
      then elim (find_next_operating_start candidate (candidate +ℤ pos horizon)) [
        | none ↦ err search_exhausted
        | some wake ↦ create_occurrence d (d.to_iso candidate) (d.to_iso wake) >>= λ o. ok (o ∷ [])
      ]
      else ok []

  unfoldable pub shutdowns_from : ℕ → ℤ → ℤ → Result IntervalError (List Occurrence)
  shutdowns_from zero candidate upper = err out_of_fuel
  shutdowns_from (suc fuel) candidate upper = elim (leb_ℤ candidate upper) [
    | true ↦ shutdown_at candidate >>= λ xs.
        shutdowns_from fuel (candidate +ℤ pos minute) upper >>= λ ys. ok (xs ++ ys)
    | false ↦ ok []
  ]

-- `Math.floor(lower / MINUTE) * MINUTE + MINUTE`.
abbrev pub first_candidate : ℤ → ℤ
first_candidate (pos n) = pos (n / 60000 * 60000 + 60000)
first_candidate (negsuc n) = pos minute -ℤ pos (suc (n / 60000) * 60000)

-- What follows the checks of the interval; eight days are 11520 minutes.
abbrev pub shutdowns_between :
    Dates → Zone → OperatingPolicy → ℤ → ℤ → Result IntervalError (List Occurrence)
shutdowns_between d zone (scheduled timezone windows) lower upper =
    shutdowns_from d zone timezone windows 11521 (first_candidate lower) upper
shutdowns_between d zone p lower upper = ok []

unfoldable pub check_times :
    Dates → Zone → OperatingPolicy → ℤ → ℤ → Result IntervalError (List Occurrence)
check_times d zone policy lower upper =
    if ltb_ℤ upper lower
    then err reversed_interval
    else if ltb_ℤ (pos horizon) (upper -ℤ lower)
    then err interval_too_large
    else if leb_ℤ upper lower
    then ok []
    else shutdowns_between d zone policy lower upper

abbrev pub time_of : Dates → IntervalError → Str → Result IntervalError ℤ
time_of d e s = elim (is_canonical_timestamp d (Value.string s)) [
  | true ↦ elim (d.parse s) [ some t ↦ ok t | none ↦ err e ]
  | false ↦ err e
]

unfoldable pub create_occurrences :
    Dates → Zone → OperatingPolicy → Str → Str → Result IntervalError (List Occurrence)
create_occurrences d zone policy completed_through ticked_through = do
  lower ← time_of d invalid_completed_through completed_through
  upper ← time_of d invalid_ticked_through ticked_through
  check_times d zone policy lower upper
