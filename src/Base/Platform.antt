-- ===== src/Base/Platform.antt =====
-- What the program takes from the JavaScript runtime and does not implement: the text of a `Date`, and
-- the parts of a date in a time zone. The fields are functions; the laws stand in records of their own.
use mathlib.Core.Path.{◌≡◌}
use mathlib.Core.List.{List, [], ◌∷◌}
use mathlib.Core.Option.{Option, none, some}
use mathlib.Core.Bool.{Bool, false}
use atlas_manager.Base.Tests.{if◌then◌else◌}
use atlas_manager.Base.Text.{Str, str_eq}
use atlas_manager.Base.Int.{ℤ}
use atlas_manager.Base.Values.{Value}

-- `new Date(text).getTime()`, `none` if it is not finite, and `new Date(t).toISOString()`.
pub record Dates : Type 0 where
  pub parse : Str → Option ℤ
  pub to_iso : ℤ → Str

-- A time stamp that was printed reads back as itself.
pub record IsRoundTrip (d : Dates) : Type 0 where
  pub parse_to_iso : (t : ℤ) → d.parse (d.to_iso t) ≡ some t

-- `formatToParts` of an `Intl.DateTimeFormat` at a time zone: the type and the value of each part.
pub record Zone : Type 0 where
  pub format_to_parts : Str → ℤ → List (Str × Str)

-- `parts.find((part) => part.type === type)?.value`.
unfoldable pub find_part : List (Str × Str) → Str → Option Str
find_part [] type = none
find_part ((t, v) ∷ parts) type = if str_eq t type then some v else find_part parts type

-- power-management/domain/canonical-timestamp.ts: a string that is the ISO text of the time it stands for.
unfoldable pub is_canonical_timestamp : Dates → Value → Bool
is_canonical_timestamp d (Value.string s) = elim (d.parse s) [
  | some t ↦ str_eq (d.to_iso t) s
  | none ↦ false
]
is_canonical_timestamp d v = false
