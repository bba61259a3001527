-- ===== src/Power/Claims/Examples.antt =====
-- Calls of a claim store: the same occurrence twice, and once more after it was pruned.
use atlas_manager.Power.Interval.{create_occurrence}
use atlas_manager.Base.{
  str_lt, ◌≡◌, zero, refl, false, List, [], ◌∷◌, Str, lit, str_eq, some, if◌then◌else◌,
}
use atlas_manager.Base.Int.{ℤ, pos}
use atlas_manager.Base.Platform.{is_canonical_timestamp, Dates}
use atlas_manager.Power.Claims.{
  add_claim, has_claim, run_call, Call, claim, prune_completed_through, claimed, duplicate, pruned,
  unchanged, run_calls,
}
use atlas_manager.Power.Claims.Spec.{spec_calls}
use atlas_manager.Power.Claims.Refinement.{run_calls-spec_calls}

abbrev evening : Str
evening = lit "2026-01-01T22:00:00.000Z"

abbrev morning : Str
morning = lit "2026-01-02T08:00:00.000Z"

abbrev iso : ℤ → Str
iso (pos zero) = evening
iso t = morning

abbrev clock : Dates
clock = record {
  parse = λ s. if str_eq s evening then some (pos 0) else some (pos 36000000);
  to_iso = λ t. iso t;
}

abbrev calls : List Call
calls =
    claim evening morning
    ∷ claim evening morning
    ∷ prune_completed_through evening
    ∷ claim evening morning
    ∷ prune_completed_through []
    ∷ []

run_calls-spec_calls_example : run_calls clock false [] calls ≡ spec_calls clock false [] calls
run_calls-spec_calls_example = run_calls-spec_calls clock false calls

forgets_pruned :
    run_calls clock false [] calls ≡ claimed ∷ duplicate ∷ pruned ∷ claimed ∷ unchanged ∷ []
unfolding run_calls run_call create_occurrence is_canonical_timestamp str_eq has_claim add_claim
    str_lt
forgets_pruned = refl
