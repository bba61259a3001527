-- ===== src/Services/Stop/Input.antt =====
-- What the validation of a stop request admits, and sets of identifiers.
use atlas_manager.Base.{
  suc, ◌+◌, ◌≤◌, ◌≡◌, refl, ap, inl, inr, Bool, true, false, not, ◌||◌, List, [], ◌∷◌, ◌++◌, arith,
  Str, lit, Option, some, none, Result, ok, err, ◌>>◌, throw_if, length, length-append, ltb,
  Bool-cases, includes, all,
}
use atlas_manager.Base.Values.{
  Value, Fields, own_keys, as_object, read_field, list_values, is_expected,
}
use atlas_manager.Base.Pattern.{is_slug}
use atlas_manager.Graph.{add_all}
use atlas_manager.Graph.Count.{
  count, count-append, includes→count, count_self, count_le_of_length, member-cons,
}
use atlas_manager.Graph.Kahn.Result.{Different}
use atlas_manager.Graph.Order.{add_all-only, add_all-Different}
use atlas_manager.Services.Stop.{
  StopError, plan_invalid, are_distinct, slugs_of, is_machine_shutdown, ids_of_array, ids_of_value,
  input_fields, validate_input,
}

length-add_all :
    (set xs : List Str)
    → ((v : Str) → count v set + count v xs ≤ 1)
    → length (add_all set xs) ≡ length set + length xs
unfolding add_all
length-add_all set [] u = omega arith
length-add_all set (x ∷ xs) u = elim (Bool-cases (includes set x)) [
  | inl e ↦ absurd (omega (arith, u x, includes→count x set e, count_self x xs))
  | inr e ↦ rw e (
      omega (
        arith,
        length-append set (x ∷ []),
        length-add_all (set ++ (x ∷ [])) xs (λ v. omega (arith, u v, count-append v set (x ∷ []))),
      ))
]

pub Different-are_distinct : (xs : List Str) → Different xs → are_distinct xs ≡ true
Different-are_distinct xs u = ground (arith, length-add_all [] xs (λ v. omega (arith, u v)))

pub are_distinct-Different : (xs : List Str) → are_distinct xs ≡ true → Different xs
are_distinct-Different xs h v = omega (
  arith,
  add_all-Different [] xs (λ w. omega arith) v,
  count_le_of_length (add_all [] xs) xs (λ w. once w) (ground arith) v,
)
  where
    once : (w : Str) → count w (add_all [] xs) ≤ count w xs
    once w = ground (arith, add_all-Different [] xs (λ u. omega arith) w, add_all-only w [] xs)

-- Each string of the list has the form of an identifier.
abbrev pub Slugs : List Str → Type 0
Slugs xs = (v : Str) → 1 ≤ count v xs → is_slug v ≡ true

slugs_of-Slugs :
    (vs : List Value) (ids : List Str)
    → slugs_of vs ≡ some ids
    → Slugs ids × (length ids ≡ length vs)
slugs_of-Slugs [] ids h =
    let same : [] ≡ ids = cc in rw (← same) (λ v k. absurd (omega arith), refl)
slugs_of-Slugs (Value.string s ∷ vs) ids h =
    step (is_slug s) refl (slugs_of vs) (λ is e. slugs_of-Slugs vs is e) h
  where
    step :
        (b : Bool)
        → is_slug s ≡ b
        → (r : Option (List Str))
        → ((is : List Str) → r ≡ some is → Slugs is × (length is ≡ length vs))
        → ◌≡◌ {A = Option (List Str)}
            (elim b [ true ↦ elim r [ some is ↦ some (s ∷ is) | none ↦ none ] | false ↦ none ])
            (some ids)
        → Slugs ids × (length ids ≡ suc (length vs))
    step true e (some is) ih k =
        let same : s ∷ is ≡ ids = cc in
        let (slugs, long) = ih is refl in
        rw (← same) (
          (λ v m. elim (member-cons v s is m) [
            | inl here ↦ rw (← here) e
            | inr later ↦ slugs v later
          ]),
          ap suc long,
        )
    step true e none ih k = cc
    step false e r ih k = cc
slugs_of-Slugs (_ ∷ vs) ids h = cc

-- What the loop relies on.
pub record IsRequest (ids : List Str) : Type 0 where
  pub nonempty : 1 ≤ length ids
  pub bounded : length ids ≤ 64
  pub different : Different ids
  pub slugs : Slugs ids

ids_of_array-IsRequest :
    (fs : Fields) (vs : List Value) (ids : List Str) → ids_of_array fs vs ≡ ok ids → IsRequest ids
ids_of_array-IsRequest fs vs ids h =
    sized (ltb (length vs) 1 || ltb 64 (length vs)) refl (slugs_of vs) refl h
  where
    admitted :
        (b : Bool) (is : List Str)
        → ◌≡◌ {A = Result StopError (List Str)} (throw_if b plan_invalid >> ok is) (ok ids)
        → (b ≡ false) × (is ≡ ids)
    admitted true is k = cc
    admitted false is k = (refl, cc)

    sized :
        (a : Bool)
        → (ltb (length vs) 1 || ltb 64 (length vs)) ≡ a
        → (r : Option (List Str)) → slugs_of vs ≡ r
        → ◌≡◌ {A = Result StopError (List Str)}
            (throw_if a plan_invalid >> elim r [
              | none ↦ err plan_invalid
              | some is ↦
                  throw_if
                    (not (are_distinct is) || not (all (is_expected input_fields) (own_keys fs)))
                    plan_invalid
                  >> ok is
            ])
            (ok ids)
        → IsRequest ids
    sized true e r e' k = cc
    sized false e none e' k = cc
    sized false e (some is) e' k =
        let (fine, same) =
          admitted (not (are_distinct is) || not (all (is_expected input_fields) (own_keys fs))) is
            k in
        let (slugs, long) = slugs_of-Slugs vs is e' in
        rw (← same) (record {
          nonempty = ground arith;
          bounded = ground arith;
          different = are_distinct-Different is (ground arith);
          slugs = slugs;
        })

-- A request that is admitted names one to 64 different services, by identifiers of the right form.
pub validate_input-IsRequest :
    (v : Value) (ids : List Str) → validate_input v ≡ ok ids → IsRequest ids
unfolding validate_input
validate_input-IsRequest v ids h = from (as_object v) h
  where
    from_value : (fs : Fields) (x : Value) → ids_of_value fs x ≡ ok ids → IsRequest ids
    from_value fs (Value.array vs) k = ids_of_array-IsRequest fs (list_values vs) ids k
    from_value fs _ k = cc

    checked :
        (b : Bool) (fs : Fields) (x : Value)
        → ◌≡◌ {A = Result StopError (List Str)}
            (throw_if b plan_invalid >> ids_of_value fs x)
            (ok ids)
        → IsRequest ids
    checked true fs x k = cc
    checked false fs x k = from_value fs x k

    from :
        (o : Option Fields)
        → ◌≡◌ {A = Result StopError (List Str)}
            (elim o [
              | none ↦ err plan_invalid
              | some fs ↦
                  throw_if
                    (not (is_machine_shutdown (read_field fs (lit "authority"))))
                    plan_invalid
                  >> ids_of_value fs (read_field fs (lit "serviceIds"))
            ])
            (ok ids)
        → IsRequest ids
    from none k = cc
    from (some fs) k =
        checked (not (is_machine_shutdown (read_field fs (lit "authority")))) fs
          (read_field fs (lit "serviceIds")) k
