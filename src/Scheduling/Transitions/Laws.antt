-- ===== src/Scheduling/Transitions/Laws.antt =====
-- The loop of the transition calculator against the minutes at which the expectation changes.
use atlas_manager.Base.{
  some, ℕ, zero, suc, ◌+◌, ◌*◌, ◌/◌, ◌≤◌, ◌<◌, ◌≡◌, refl, Bool, true, false, List, [], ◌∷◌, arith,
  ok, if◌then◌else◌, All, ◌≢◌,
}
use atlas_manager.Base.Int.{
  ℤ, pos, leb_ℤ, ltb_ℤ, ◌+ℤ◌, ◌-ℤ◌, ◌≤ℤ◌, ◌<ℤ◌, pos_part, neg_part, int_laws, one_part,
}
use atlas_manager.Base.Platform.{Zone, Dates}
use atlas_manager.Base.Values.{Value}
use atlas_manager.Scheduling.Window.{IsWindow}
use atlas_manager.Scheduling.Schedule.{Schedule}
use atlas_manager.Scheduling.Policy.{Policy, Timezone, scheduled_policy}
use atlas_manager.Scheduling.Evaluator.{expectation_of, evaluate_at}
use atlas_manager.Scheduling.Evaluator.Laws.{LocalClock, is_open, evaluate_at-is_open}
use atlas_manager.Scheduling.Transitions.{
  Transition, TransitionKind, create_transition, kind_of, expectation_eq, transitions_from,
  calculate_transitions, is_minute_aligned, validate_times, maximum_interval_in_milliseconds,
  transition_fuel,
}

abbrev minute_before : ℤ → ℤ
minute_before t = t -ℤ pos 60000

-- The transitions at `n` successive minutes from `t` on: one at each minute whose state differs from
-- the state one minute before.
pub changes : Dates → (ℤ → Bool) → ℕ → ℤ → List Transition
changes d state zero t = []
changes d state (suc n) t =
    let rest = changes d state n (t +ℤ pos 60000) in
    if expectation_eq (expectation_of (state t)) (expectation_of (state (minute_before t)))
    then rest
    else create_transition d (expectation_of (state t)) t ∷ rest

expectation_eq→eq :
    (a b : Bool) → expectation_eq (expectation_of a) (expectation_of b) ≡ true → a ≡ b
expectation_eq→eq true true h = refl
expectation_eq→eq false false h = refl
expectation_eq→eq true false h = cc
expectation_eq→eq false true h = cc

back-forth : (t : ℤ) → minute_before (t +ℤ pos 60000) ≡ t
back-forth t = omega int_laws

past : (t to : ℤ) → to <ℤ t → leb_ℤ t to ≡ false
past t to h = ground arith

within : (t to : ℤ) → t ≤ℤ to → leb_ℤ t to ≡ true
within t to h = ground arith

module _ (d : Dates) (zone : Zone) (policy : Policy) (state : ℤ → Bool)
    (evaluates : (t : ℤ) → evaluate_at zone policy t ≡ ok (expectation_of (state t))) where
  -- `n` is the number of the loop's minutes from `t` to `to`.
  transitions_from-changes :
      (fuel n : ℕ) (t to : ℤ)
      → n < fuel
      → to <ℤ t +ℤ pos (60000 * n)
      → t +ℤ pos (60000 * n) ≤ℤ to +ℤ pos 60000
      → transitions_from d zone policy fuel t to (expectation_of (state (minute_before t)))
        ≡ ok (changes d state n t)
  unfolding transitions_from changes
  transitions_from-changes zero n t to f lo hi = elim f [ ]
  transitions_from-changes (suc fuel) zero t to f lo hi =
      rw (past t to (omega int_laws), transitions_from)
  transitions_from-changes (suc fuel) (suc n) t to f lo hi =
      let next =
        transitions_from-changes fuel n (t +ℤ pos 60000) to (omega arith) (omega int_laws)
          (omega int_laws) in
      let next' : transitions_from d zone policy fuel (t +ℤ pos 60000) to (expectation_of (state t))
          ≡ ok (changes d state n (t +ℤ pos 60000)) =
        rw (back-forth t) at next in
      ground (
        arith,
        evaluates t,
        next',
        within t to (omega int_laws),
        expectation_eq→eq (state t) (state (minute_before t)),
      )

-- The kinds alternate, starting with one that is not `k`.
abbrev pub Alternates : TransitionKind → List Transition → Type 0
Alternates k [] = Unit
Alternates k (x ∷ xs) = (x.kind ≢ k) × Alternates x.kind xs

changes-Alternates :
    (d : Dates) (state : ℤ → Bool) (n : ℕ) (t : ℤ)
    → Alternates (kind_of (expectation_of (state (minute_before t)))) (changes d state n t)
unfolding changes
changes-Alternates d state zero t = tt
changes-Alternates d state (suc n) t =
    let later = changes-Alternates d state n (t +ℤ pos 60000) in
    let later' : Alternates (kind_of (expectation_of (state t)))
        (changes d state n (t +ℤ pos 60000)) =
      rw (back-forth t) at later in
    step (state t) (state (minute_before t)) later'
  where
    step :
        (b a : Bool)
        → Alternates (kind_of (expectation_of b)) (changes d state n (t +ℤ pos 60000))
        → Alternates (kind_of (expectation_of a)) (
            if expectation_eq (expectation_of b) (expectation_of a)
            then changes d state n (t +ℤ pos 60000)
            else create_transition d (expectation_of b) t ∷ changes d state n (t +ℤ pos 60000))
    step true true h = h
    step false false h = h
    step true false h = (λ e. cc, h)
    step false true h = (λ e. cc, h)

-- The interval that the calculator accepts.
pub record IsInterval (from to : ℤ) : Type 0 where
  pub forward : from <ℤ to
  pub from_aligned : is_minute_aligned from ≡ true
  pub to_aligned : is_minute_aligned to ≡ true
  pub eight_days : to ≤ℤ from +ℤ pos maximum_interval_in_milliseconds

within_limit :
    (from to : ℤ)
    → to ≤ℤ from +ℤ pos maximum_interval_in_milliseconds
    → pos_part (to -ℤ from) + 0 ≤ 691200000 + neg_part (to -ℤ from)
within_limit from to h = omega int_laws

not_beyond : (t : ℤ) → pos_part t + 0 ≤ 691200000 + neg_part t → ltb_ℤ (pos 691200000) t ≡ false
not_beyond t h = ground arith

validate_times-eq : (from to : ℤ) → IsInterval from to → validate_times from to ≡ ok (from, to)
unfolding validate_times
validate_times-eq from to h =
    let limit = within_limit from to h.eight_days in
    rw (past to from h.forward)
      (rw (h.from_aligned) (rw (h.to_aligned) (rw (not_beyond (to -ℤ from) limit))))

-- The number of minutes in an interval.
abbrev pub minutes_between : ℤ → ℤ → ℕ
minutes_between from to = pos_part (to -ℤ from) / 60000

fuel_enough :
    (from to : ℤ)
    → to ≤ℤ from +ℤ pos maximum_interval_in_milliseconds
    → minutes_between from to < transition_fuel
fuel_enough from to h = omega (int_laws, one_part (to -ℤ from))

reaches : (from to : ℤ) → to <ℤ from +ℤ pos 60000 +ℤ pos (60000 * minutes_between from to)
reaches from to = omega int_laws

stays :
    (from to : ℤ)
    → from <ℤ to
    → from +ℤ pos 60000 +ℤ pos (60000 * minutes_between from to) ≤ℤ to +ℤ pos 60000
stays from to h = omega (int_laws, one_part (to -ℤ from))

-- On valid windows, over an accepted interval, and in a zone that names the local day, hour and minute, the
-- calculator returns a transition for exactly the minutes, after `from` and up to `to`, at which the schedule opens
-- or closes, in order, and the kinds of the transitions alternate.
pub calculate_transitions-changes :
    (d : Dates) {zone : Zone} {tz : Timezone} (c : LocalClock zone tz) (s : Schedule) (from to : ℤ)
    → All IsWindow s.windows
    → IsInterval from to
    → (calculate_transitions d zone
          (scheduled_policy tz s)
          (Value.date (some from))
          (Value.date (some to))
        ≡ ok (changes d (is_open c s) (minutes_between from to) (from +ℤ pos 60000)))
      × Alternates
          (kind_of (expectation_of (is_open c s from)))
          (changes d (is_open c s) (minutes_between from to) (from +ℤ pos 60000))
unfolding calculate_transitions
calculate_transitions-changes d {zone} {tz} c s from to x h =
    let state = is_open c s in
    let n = minutes_between from to in
    let loop =
      transitions_from-changes d zone (scheduled_policy tz s) state
        (λ t. evaluate_at-is_open c s t x) transition_fuel n (from +ℤ pos 60000) to
        (fuel_enough from to h.eight_days) (reaches from to) (stays from to h.forward) in
    let kinds = changes-Alternates d state n (from +ℤ pos 60000) in
    (
      rw (validate_times-eq from to h)
          (rw (evaluate_at-is_open c s from x) (rw (back-forth from) at loop)),
      rw (back-forth from) at kinds,
    )
