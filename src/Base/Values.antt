-- ===== src/Base/Values.antt =====
-- The values that a validator takes as `unknown`: what the code can tell apart by `typeof`,
-- `Array.isArray`, `instanceof Date`, `Reflect.ownKeys`, `Object.hasOwn` and a property read.
use atlas_manager.Base.Tests.{if◌then◌else◌, ◌==◌}
use atlas_manager.Base.Text.{Str, str_eq, includes}
use atlas_manager.Base.Lists.{length, all}
use atlas_manager.Base.Int.{ℤ}
use mathlib.Core.Bool.{Bool, true, false, ◌&&◌}
use mathlib.Core.List.{List, [], ◌∷◌}
use mathlib.Core.Option.{Option, none, some}

-- `other` is a number, a bigint, a symbol or a function: no modelled code looks inside one.
-- `object plain fs` has the own properties `fs`; `plain` says that its prototype is
-- `Object.prototype` or `null`. `date none` is an invalid `Date`.
mutual
  pub data Value : Type 0 where
    undefined null other : Value
    boolean : Bool → Value
    string : Str → Value
    array : Values → Value
    object : Bool → Fields → Value
    date : Option ℤ → Value

  pub data Values : Type 0 where
    nil : Values
    cons : Value → Values → Values

  -- Own properties; a key is a string or a symbol.
  pub data Fields : Type 0 where
    end : Fields
    field : Str → Value → Fields → Fields
    symbol_field : Value → Fields → Fields

pub data Key : Type 0 where
  name : Str → Key
  symbol : Key

-- `Reflect.ownKeys(input)`.
abbrev pub own_keys : Fields → List Key
own_keys end = []
own_keys (field k v fs) = name k ∷ own_keys fs
own_keys (symbol_field v fs) = symbol ∷ own_keys fs

-- The value of an own property.
unfoldable pub get_field : Fields → Str → Option Value
get_field end k = none
get_field (field j v fs) k = if str_eq j k then some v else get_field fs k
get_field (symbol_field v fs) k = get_field fs k

-- `Object.hasOwn(input, field)`.
abbrev pub has_own : Fields → Str → Bool
has_own fs k = elim (get_field fs k) [ some v ↦ true | none ↦ false ]

-- `input.field`, with what an absent property reads as.
abbrev pub read_field : Fields → Str → Value
read_field fs k = elim (get_field fs k) [ some v ↦ v | none ↦ undefined ]

abbrev pub is_expected : List Str → Key → Bool
is_expected expected (name k) = includes expected k
is_expected expected symbol = false

abbrev pub list_values : Values → List Value
list_values nil = []
list_values (cons v vs) = v ∷ list_values vs

-- `typeof input === "object" && input !== null && !Array.isArray(input)`, with the own properties.
abbrev pub as_object : Value → Option Fields
as_object (object plain fs) = some fs
as_object (date t) = some end
as_object v = none

-- The same with `isRecord`: the prototype is `Object.prototype` or `null`.
abbrev pub as_record : Value → Option Fields
as_record (object true fs) = some fs
as_record v = none

-- The own keys are the expected fields and no others.
unfoldable pub has_exact_fields : List Str → Fields → Bool
has_exact_fields expected fs =
    length (own_keys fs) == length expected
    && (all (has_own fs) expected && all (is_expected expected) (own_keys fs))

-- An allow list of named values.
abbrev pub find_name : {A : Type 0} → List (Str × A) → Str → Option A
find_name [] s = none
find_name ((n, a) ∷ l) s = if str_eq n s then some a else find_name l s
