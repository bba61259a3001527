-- ===== src/Access/Principal.antt =====
-- administrative-principal.ts.
use atlas_manager.Base.{
  ℕ, zero, suc, Bool, true, false, not, ◌&&◌, ◌||◌, List, [], ◌∷◌, ◌++◌, Str, lit, str_eq, some,
  none, Result, ok, err, ◌>>=◌, ◌>>◌, throw_if, any, length, leb, ltb, ◌==◌,
}
use atlas_manager.Base.Values.{
  Value, Fields, Key, name, symbol, own_keys, get_field, read_field, as_record,
}
use atlas_manager.Access.Errors.{AccessError, invalid_principal}

pub data PrincipalKind : Type 0 where
  human service : PrincipalKind

pub record Principal : Type 0 where
  pub principal_id : Str
  pub kind : PrincipalKind

abbrev pub is_hex : ℕ → Bool
is_hex c = (leb b'0' c && leb c b'9') || (leb b'a' c && leb c b'f')

abbrev pub is_version : ℕ → Bool
is_version c = leb b'1' c && leb c b'5'

abbrev pub is_variant : ℕ → Bool
is_variant c = c == b'8' || (c == b'9' || (c == b'a' || c == b'b'))

abbrev pub is_dash : ℕ → Bool
is_dash c = c == b'-'

abbrev pub hexes : ℕ → List (ℕ → Bool)
hexes zero = []
hexes (suc n) = is_hex ∷ hexes n

-- CANONICAL_UUID, a class of characters for each place.
abbrev pub canonical_uuid : List (ℕ → Bool)
canonical_uuid =
    hexes 8
    ++ (is_dash ∷ hexes 4)
    ++ (is_dash ∷ is_version ∷ hexes 3)
    ++ (is_dash ∷ is_variant ∷ hexes 3)
    ++ (is_dash ∷ hexes 12)

unfoldable pub matches : List (ℕ → Bool) → Str → Bool
matches [] [] = true
matches (p ∷ ps) (c ∷ s) = p c && matches ps s
matches _ _ = false

abbrev pub is_key : Str → Key → Bool
is_key k (name j) = str_eq j k
is_key k symbol = false

-- `keys.includes(k)`.
abbrev pub includes_key : List Key → Str → Bool
includes_key ks k = any (is_key k) ks

unfoldable pub principal_id_of : Value → Result AccessError Str
unfolding matches
principal_id_of (Value.string s) = do
  throw_if (not (matches canonical_uuid s)) invalid_principal
  ok s
principal_id_of v = err invalid_principal

abbrev pub kind_of_name : Str → Result AccessError PrincipalKind
kind_of_name s = elim (str_eq s (lit "human")) [
  | true ↦ ok human
  | false ↦ elim (str_eq s (lit "service")) [ true ↦ ok service | false ↦ err invalid_principal ]
]

unfoldable pub kind_of_value : Value → Result AccessError PrincipalKind
unfolding str_eq
kind_of_value (Value.string s) = kind_of_name s
kind_of_value v = err invalid_principal

abbrev pub kind_of_fields : Fields → Result AccessError PrincipalKind
kind_of_fields fs = elim (includes_key (own_keys fs) (lit "kind")) [
  | true ↦ kind_of_value (read_field fs (lit "kind"))
  | false ↦ ok human
]

abbrev pub has_principal_keys : List Key → Bool
has_principal_keys keys =
    (not (ltb (length keys) 1) && not (ltb 2 (length keys)))
    && (includes_key keys (lit "principalId")
        && not (length keys == 2 && not (includes_key keys (lit "kind"))))

unfoldable pub create_principal : Value → Result AccessError Principal
unfolding principal_id_of kind_of_value get_field
create_principal v = elim (as_record v) [
  | some fs ↦ do
    throw_if (not (has_principal_keys (own_keys fs))) invalid_principal
    id ← principal_id_of (read_field fs (lit "principalId"))
    kind ← kind_of_fields fs
    ok (record { principal_id = id; kind = kind })
  | none ↦ err invalid_principal
]
