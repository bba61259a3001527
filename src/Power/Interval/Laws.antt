-- ===== src/Power/Interval/Laws.antt =====
-- The loop over the minutes of an interval, and adjacent intervals.
use atlas_manager.Base.{
  ℕ, zero, suc, ◌+◌, ◌-◌, ◌*◌, ◌/◌, ◌≤◌, ◌<◌, ◌≡◌, refl, sym, ap, ◌∙◌, true, false, List, [], ◌++◌,
  arith, Str, some, Result, ok, err, ◌>>=◌, if◌then◌else◌, Bool-cases, inl, inr,
}
use mathlib.Core.List.{append_assoc}
use atlas_manager.Base.Int.{
  ℤ, pos, leb_ℤ, ltb_ℤ, ◌+ℤ◌, ◌-ℤ◌, ◌≤ℤ◌, ◌<ℤ◌, int_laws, pos_part, neg_part,
}
use atlas_manager.Base.Values.{Value}
use atlas_manager.Base.Platform.{Dates, Zone, is_canonical_timestamp}
use atlas_manager.Power.Tick.{Occurrence}
use atlas_manager.Power.Interval.{
  OperatingWindow, OperatingPolicy, always_on, manual, scheduled, IntervalError, shutdown_at,
  shutdowns_from, shutdowns_between, check_times, time_of, create_occurrences,
  invalid_completed_through, invalid_ticked_through,
}

abbrev Shutdowns : Type 0
Shutdowns = Result IntervalError (List Occurrence)

abbrev pub join : Shutdowns → Shutdowns → Shutdowns
join r q = r >>= λ xs. q >>= λ ys. ok (xs ++ ys)

join_assoc : (r q s : Shutdowns) → join (join r q) s ≡ join r (join q s)
join_assoc (ok xs) (ok ys) (ok zs) = ap ok (append_assoc xs ys zs)
join_assoc (ok xs) (ok ys) (err e) = refl
join_assoc (ok xs) (err e) s = refl
join_assoc (err e) q s = refl

join_nil : (r : Shutdowns) → join (ok []) r ≡ r
join_nil (ok xs) = refl
join_nil (err e) = refl

past : (t to : ℤ) → to <ℤ t → leb_ℤ t to ≡ false
past t to h = ground arith

within : (t to : ℤ) → t ≤ℤ to → leb_ℤ t to ≡ true
within t to h = ground arith

next_minute : (k : ℕ) → pos (k * 60000) +ℤ pos 60000 ≡ pos (suc k * 60000)
next_minute k = omega int_laws

-- A canonical time stamp of a time after 1970.
pub record IsTime (d : Dates) (s : Str) (t : ℕ) : Type 0 where
  pub canonical : is_canonical_timestamp d (Value.string s) ≡ true
  pub parsed : d.parse s ≡ some (pos t)

not_reversed : (a b : ℕ) → a ≤ b → ltb_ℤ (pos b) (pos a) ≡ false
not_reversed a b h = ground arith

within_horizon :
    (a b : ℕ)
    → b ≤ a + 691200000
    → pos_part (pos b -ℤ pos a) + 0 ≤ 691200000 + neg_part (pos b -ℤ pos a)
within_horizon a b h = omega int_laws

not_large : (t : ℤ) → pos_part t + 0 ≤ 691200000 + neg_part t → ltb_ℤ (pos 691200000) t ≡ false
not_large t h = ground arith

-- An interval in order and of at most eight days passes the checks.
check_times-eq :
    (d : Dates) (zone : Zone) (p : OperatingPolicy) (a b : ℕ)
    → a ≤ b
    → b ≤ a + 691200000
    → check_times d zone p (pos a) (pos b)
      ≡ (if leb_ℤ (pos b) (pos a) then ok [] else shutdowns_between d zone p (pos a) (pos b))
unfolding check_times
check_times-eq d zone p a b h k =
    rw (not_reversed a b h) (rw (not_large (pos b -ℤ pos a) (within_horizon a b k)))

module _ (d : Dates) (zone : Zone) (timezone : Str) (windows : List OperatingWindow) where
  -- The shutdowns at `n` minutes from minute `k` on.
  minutes : ℕ → ℕ → Shutdowns
  minutes zero k = ok []
  minutes (suc n) k =
      join (shutdown_at d zone timezone windows (pos (k * 60000))) (minutes n (suc k))

  minutes-append : (m n k : ℕ) → minutes (m + n) k ≡ join (minutes m k) (minutes n (k + m))
  unfolding minutes
  minutes-append zero n k =
      let e : k + 0 ≡ k = omega arith in
      let e' : 0 + n ≡ n = omega arith in rw (e, e') (sym (join_nil (minutes n k)))
  minutes-append (suc m) n k =
      let e : suc m + n ≡ suc (m + n) = omega arith in
      let e' : k + suc m ≡ suc k + m = omega arith in
      rw (e, e')
        (ap (join (shutdown_at d zone timezone windows (pos (k * 60000))))
            (minutes-append m n (suc k))
          ∙ sym (
              join_assoc (shutdown_at d zone timezone windows (pos (k * 60000))) (minutes m (suc k))
                (minutes n (suc k + m))))

  shutdowns_from-minutes :
      (fuel n k upper : ℕ)
      → n < fuel
      → upper < k * 60000 + 60000 * n
      → k * 60000 + 60000 * n ≤ upper + 60000
      → shutdowns_from d zone timezone windows fuel (pos (k * 60000)) (pos upper) ≡ minutes n k
  unfolding shutdowns_from minutes
  shutdowns_from-minutes zero n k upper f lo hi = absurd (omega arith)
  shutdowns_from-minutes (suc fuel) zero k upper f lo hi =
      rw (past (pos (k * 60000)) (pos upper) (omega int_laws), shutdowns_from)
  shutdowns_from-minutes (suc fuel) (suc n) k upper f lo hi =
      rw (within (pos (k * 60000)) (pos upper) (omega int_laws), shutdowns_from)
        (ap (join (shutdown_at d zone timezone windows (pos (k * 60000)))) (
          ap (λ t. shutdowns_from d zone timezone windows fuel t (pos upper)) (next_minute k)
          ∙ shutdowns_from-minutes fuel n (suc k) upper (omega arith) (omega arith) (omega arith)))

  -- The loop runs over the minutes after that of `a`, up to that of `b`.
  between-minutes :
      (a b : ℕ)
      → a ≤ b
      → b ≤ a + 691200000
      → shutdowns_between d zone (scheduled timezone windows) (pos a) (pos b)
        ≡ minutes (b / 60000 - a / 60000) (suc (a / 60000))
  between-minutes a b h k =
      let e : a / 60000 * 60000 + 60000 ≡ suc (a / 60000) * 60000 = omega arith in
      rw e (
        shutdowns_from-minutes 11521 (b / 60000 - a / 60000) (suc (a / 60000)) b (omega arith)
          (omega arith) (omega arith))

  check_times-minutes :
      (a b : ℕ)
      → a ≤ b
      → b ≤ a + 691200000
      → check_times d zone (scheduled timezone windows) (pos a) (pos b)
        ≡ minutes (b / 60000 - a / 60000) (suc (a / 60000))
  unfolding minutes
  check_times-minutes a b h k = elim (Bool-cases (leb_ℤ (pos b) (pos a))) [
    | inl e ↦
        let none_left : b / 60000 - a / 60000 ≡ 0 =
          let same : a ≡ b = ground arith in omega arith in
        check_times-eq d zone (scheduled timezone windows) a b h k ∙ (rw (e, none_left, minutes))
    | inr e ↦
        check_times-eq d zone (scheduled timezone windows) a b h k
        ∙ (rw e (between-minutes a b h k))
  ]

  check_times-split :
      (a b c : ℕ)
      → a ≤ b
      → b ≤ c
      → c ≤ a + 691200000
      → check_times d zone (scheduled timezone windows) (pos a) (pos c)
        ≡ join
            (check_times d zone (scheduled timezone windows) (pos a) (pos b))
            (check_times d zone (scheduled timezone windows) (pos b) (pos c))
  check_times-split a b c h k l =
      let e : c / 60000 - a / 60000 ≡ (b / 60000 - a / 60000) + (c / 60000 - b / 60000) =
        omega arith in
      let e' : suc (a / 60000) + (b / 60000 - a / 60000) ≡ suc (b / 60000) = omega arith in
      rw
        (
          check_times-minutes a c (omega arith) l,
          check_times-minutes a b h (omega arith),
          check_times-minutes b c k (omega arith),
        )
        (ap (λ n. minutes n (suc (a / 60000))) e
          ∙ minutes-append (b / 60000 - a / 60000) (c / 60000 - b / 60000) (suc (a / 60000))
          ∙ ap
              (λ m.
                join (minutes (b / 60000 - a / 60000) (suc (a / 60000)))
                  (minutes (c / 60000 - b / 60000) m))
              e')

no_shutdowns :
    (d : Dates) (zone : Zone) (p : OperatingPolicy) (a b : ℕ)
    → ((x y : ℤ) → shutdowns_between d zone p x y ≡ ok [])
    → a ≤ b
    → b ≤ a + 691200000
    → check_times d zone p (pos a) (pos b) ≡ ok []
no_shutdowns d zone p a b e h k = elim (Bool-cases (leb_ℤ (pos b) (pos a))) [
  | inl c ↦ check_times-eq d zone p a b h k ∙ (rw c)
  | inr c ↦ check_times-eq d zone p a b h k ∙ (rw c (e (pos a) (pos b)))
]

time_of-IsTime :
    (d : Dates) (e : IntervalError) (s : Str) (t : ℕ) → IsTime d s t → time_of d e s ≡ ok (pos t)
time_of-IsTime d e s t x = rw (x.canonical, time_of) (rw (x.parsed, time_of))

created-eq :
    (d : Dates) (zone : Zone) (p : OperatingPolicy) (s t : Str) (a b : ℕ)
    → IsTime d s a
    → IsTime d t b
    → create_occurrences d zone p s t ≡ check_times d zone p (pos a) (pos b)
unfolding create_occurrences
created-eq d zone p s t a b x y =
    ap
      (λ (r : Result IntervalError ℤ). r >>= λ lower.
        time_of d invalid_ticked_through t >>= λ upper. check_times d zone p lower upper)
      (time_of-IsTime d invalid_completed_through s a x)
    ∙ ap (λ (r : Result IntervalError ℤ). r >>= λ upper. check_times d zone p (pos a) upper)
        (time_of-IsTime d invalid_ticked_through t b y)

-- The shutdowns between two ticks and those between the second and a third are those between the first and the
-- third, in this order: none is lost or repeated where two intervals meet. An error of a part is an error of the
-- whole. The time stamps are canonical, in order and at most eight days apart.
pub create_occurrences-split :
    (d : Dates) (zone : Zone) (policy : OperatingPolicy) (s t u : Str) (a b c : ℕ)
    → IsTime d s a
    → IsTime d t b
    → IsTime d u c
    → a ≤ b
    → b ≤ c
    → c ≤ a + 691200000
    → create_occurrences d zone policy s u
      ≡ join (create_occurrences d zone policy s t) (create_occurrences d zone policy t u)
create_occurrences-split d zone policy s t u a b c x y z h k l =
    rw
      (
        created-eq d zone policy s u a c x z,
        created-eq d zone policy s t a b x y,
        created-eq d zone policy t u b c y z,
      )
      (times policy)
  where
    times :
        (p : OperatingPolicy)
        → check_times d zone p (pos a) (pos c)
          ≡ join (check_times d zone p (pos a) (pos b)) (check_times d zone p (pos b) (pos c))
    times always_on = rw (
      no_shutdowns d zone always_on a c (λ x y. refl) (omega arith) l,
      no_shutdowns d zone always_on a b (λ x y. refl) h (omega arith),
      no_shutdowns d zone always_on b c (λ x y. refl) k (omega arith),
    )
    times manual = rw (
      no_shutdowns d zone manual a c (λ x y. refl) (omega arith) l,
      no_shutdowns d zone manual a b (λ x y. refl) h (omega arith),
      no_shutdowns d zone manual b c (λ x y. refl) k (omega arith),
    )
    times (scheduled timezone windows) = check_times-split d zone timezone windows a b c h k l
