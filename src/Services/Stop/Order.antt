-- ===== src/Services/Stop/Order.antt =====
-- `dependentFirstRequestedOrder`: in each round the services that no remaining service depends on, sorted.
pub mod Laws
use atlas_manager.Base.{
  ℕ, zero, suc, Bool, true, false, not, List, [], ◌∷◌, ◌++◌, Str, Option, some, none, length, all,
  keep, includes,
}
use atlas_manager.Graph.{add_all}
use atlas_manager.Graph.Kahn.{sort_strs}

abbrev pub is_ready : (Str → List Str) → List Str → Str → Bool
is_ready dependents_of remaining id = all (λ w. not (includes remaining w)) (dependents_of id)

abbrev pub ready_of : (Str → List Str) → List Str → List Str
ready_of dependents_of remaining = sort_strs (keep (is_ready dependents_of remaining) remaining)

-- `remaining` after each service of the round is deleted.
abbrev pub delete_all : List Str → List Str → List Str
delete_all ready remaining = keep (λ id. not (includes ready id)) remaining

-- What a round pushes, and what the later rounds push; `none` is the error that no service is ready.
abbrev pub add_round : List Str → Option (List Str) → Option (List Str)
add_round [] later = none
add_round (i ∷ is) none = none
add_round (i ∷ is) (some later) = some ((i ∷ is) ++ later)

-- The loop gets a round for each service that remains at first.
unfoldable pub order_from : ℕ → (Str → List Str) → List Str → Option (List Str)
order_from fuel dependents_of [] = some []
order_from zero dependents_of (r ∷ rs) = none
order_from (suc fuel) dependents_of (r ∷ rs) =
    let ready = ready_of dependents_of (r ∷ rs) in
    add_round ready (order_from fuel dependents_of (delete_all ready (r ∷ rs)))

-- The loop starts with `new Set(requested)`.
unfoldable pub dependent_first_requested_order : (Str → List Str) → List Str → Option (List Str)
dependent_first_requested_order dependents_of requested =
    let remaining = add_all [] requested in order_from (length remaining) dependents_of remaining
