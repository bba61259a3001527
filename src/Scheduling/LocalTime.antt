-- ===== src/Scheduling/LocalTime.antt =====
-- service-schedule-local-time.ts: `HH:MM`, compared by the program as a string.
use mathlib.Core.Path.{ap₂}
use atlas_manager.Base.{
  ℕ, ◌+◌, ◌*◌, ◌-◌, ◌≤◌, ◌<◌, ◌≡◌, ◌∙◌, Bool, true, false, ◌&&◌, ◌||◌, [], ◌∷◌, arith, Str, str_lt,
  ltb, leb, ◌==◌, Result, ok, err, if◌then◌else◌,
}
use atlas_manager.Base.Values.{Value}
use atlas_manager.Scheduling.Errors.{SchedulingError, invalid_schedule_local_time}

abbrev pub in_range : ℕ → ℕ → ℕ → Bool
in_range lo hi c = leb lo c && leb c hi

-- `[01][0-9]|2[0-3]`, then `:`, then `[0-5][0-9]`.
abbrev pub is_clock : ℕ → ℕ → ℕ → ℕ → ℕ → Bool
is_clock h k c m n =
    ((in_range b'0' b'1' h && in_range b'0' b'9' k) || (h == b'2' && in_range b'0' b'3' k))
    && (c == b':' && (in_range b'0' b'5' m && in_range b'0' b'9' n))

-- LOCAL_TIME_PATTERN.test.
unfoldable pub matches_local_time : Str → Bool
matches_local_time (h ∷ k ∷ c ∷ m ∷ n ∷ []) = is_clock h k c m n
matches_local_time s = false

unfoldable pub create_local_time : Value → Result SchedulingError Str
create_local_time (Value.string s) =
    if matches_local_time s then ok s else err invalid_schedule_local_time
create_local_time v = err invalid_schedule_local_time

-- The minute of the day that a local time stands for.
unfoldable pub minute_of : Str → ℕ
minute_of (h ∷ k ∷ c ∷ m ∷ n ∷ []) = (h - 48) * 600 + (k - 48) * 60 + (m - 48) * 10 + (n - 48)
minute_of s = 0

-- The digits of a valid time.
abbrev IsDigits : ℕ → ℕ → ℕ → ℕ → ℕ → Type 0
IsDigits h k c m n =
    (48 ≤ h)
    × (48 ≤ k)
    × (k ≤ 57)
    × (h * 10 + k ≤ 551)
    × (c ≡ 58)
    × (48 ≤ m)
    × (m ≤ 53)
    × (48 ≤ n)
    × (n ≤ 57)

clock-IsDigits : (h k c m n : ℕ) → is_clock h k c m n ≡ true → IsDigits h k c m n
clock-IsDigits h k c m n v = ground arith

-- A local time is a minute of the day.
pub minute_of-lt : (s : Str) → matches_local_time s ≡ true → minute_of s < 1440
unfolding matches_local_time minute_of
minute_of-lt (h ∷ k ∷ c ∷ m ∷ n ∷ []) v = omega (arith, clock-IsDigits h k c m n v)
minute_of-lt _ v = ground arith

-- Each place in front of the rest of a string: the order of strings is the order of numbers.
lex_units :
    (m n m' n' : ℕ)
    → 48 ≤ m
    → 48 ≤ m'
    → 48 ≤ n
    → 48 ≤ n'
    → n ≤ 57
    → n' ≤ 57
    → (ltb m m' || (m == m' && (ltb n n' || (n == n' && false))))
      ≡ ltb ((m - 48) * 10 + (n - 48)) ((m' - 48) * 10 + (n' - 48))
lex_units m n m' n' p p' q q' r r' = ground arith

lex_colon : (c c' : ℕ) (r : Bool) → c ≡ 58 → c' ≡ 58 → (ltb c c' || (c == c' && r)) ≡ r
lex_colon c c' r p p' = ground arith

lex_hour :
    (k k' u u' : ℕ) (r : Bool)
    → 48 ≤ k
    → 48 ≤ k'
    → u < 60
    → u' < 60
    → r ≡ ltb u u'
    → (ltb k k' || (k == k' && r)) ≡ ltb ((k - 48) * 60 + u) ((k' - 48) * 60 + u')
lex_hour k k' u u' r p p' q q' e = ground arith

lex_ten_hours :
    (h h' u u' : ℕ) (r : Bool)
    → 48 ≤ h
    → 48 ≤ h'
    → u < 600
    → u' < 600
    → r ≡ ltb u u'
    → (ltb h h' || (h == h' && r)) ≡ ltb ((h - 48) * 600 + u) ((h' - 48) * 600 + u')
lex_ten_hours h h' u u' r p p' q q' e = ground arith

clock_order :
    (h k c m n h' k' c' m' n' : ℕ)
    → IsDigits h k c m n
    → IsDigits h' k' c' m' n'
    → str_lt (h ∷ k ∷ c ∷ m ∷ n ∷ []) (h' ∷ k' ∷ c' ∷ m' ∷ n' ∷ [])
      ≡ ltb (minute_of (h ∷ k ∷ c ∷ m ∷ n ∷ [])) (minute_of (h' ∷ k' ∷ c' ∷ m' ∷ n' ∷ []))
unfolding str_lt minute_of
clock_order h k c m n h' k' c' m' n' d d' =
    lex_ten_hours h h' _ _ _ (omega arith) (omega arith) (omega arith) (omega arith) (
      lex_hour k k' _ _ _ (omega arith) (omega arith) (omega arith) (omega arith) (
        lex_colon c c' _ (omega arith) (omega arith)
        ∙ lex_units m n m' n' (omega arith) (omega arith) (omega arith) (omega arith) (omega arith)
            (omega arith)))
    ∙ ap₂ ltb (omega arith) (omega arith)

-- The program compares local times as strings. On valid times that is the order of the minutes.
pub str_lt-minute_of :
    (s t : Str)
    → matches_local_time s ≡ true
    → matches_local_time t ≡ true
    → str_lt s t ≡ ltb (minute_of s) (minute_of t)
unfolding matches_local_time
str_lt-minute_of (h ∷ k ∷ c ∷ m ∷ n ∷ []) (h' ∷ k' ∷ c' ∷ m' ∷ n' ∷ []) v w =
    clock_order h k c m n h' k' c' m' n' (clock-IsDigits h k c m n v)
      (clock-IsDigits h' k' c' m' n' w)
str_lt-minute_of _ _ v w = ground arith
