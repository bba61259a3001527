-- ===== src/Base/Pattern.antt =====
-- Regular expressions of a fixed length, a class of characters for each place, and the classes.
use Prim.Native.Nat.{ℕ, zero, suc}
use mathlib.Core.Bool.{Bool, true, false, ◌&&◌, ◌||◌}
use mathlib.Core.List.{List, [], ◌∷◌}
use atlas_manager.Base.Tests.{leb, ◌==◌}
use atlas_manager.Base.Text.{Str}

abbrev pub is_digit : ℕ → Bool
is_digit c = leb b'0' c && leb c b'9'

abbrev pub is_lower : ℕ → Bool
is_lower c = leb b'a' c && leb c b'z'

abbrev pub is_lower_or_digit : ℕ → Bool
is_lower_or_digit c = is_lower c || is_digit c

abbrev pub is_char : ℕ → ℕ → Bool
is_char b c = c == b

abbrev pub times : ℕ → (ℕ → Bool) → List (ℕ → Bool)
times zero p = []
times (suc n) p = p ∷ times n p

unfoldable pub matches : List (ℕ → Bool) → Str → Bool
matches [] [] = true
matches (p ∷ ps) (c ∷ s) = p c && matches ps s
matches _ _ = false

-- `^[a-z0-9]+(?:-[a-z0-9]+)*$`; `begun` says that the segment has a character.
unfoldable pub is_slug_from : Bool → Str → Bool
is_slug_from begun [] = begun
is_slug_from begun (c ∷ s) =
    (is_lower_or_digit c && is_slug_from true s) || (begun && (c == b'-' && is_slug_from false s))

abbrev pub is_slug : Str → Bool
is_slug s = is_slug_from false s
