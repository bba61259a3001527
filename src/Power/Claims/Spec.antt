-- ===== src/Power/Claims/Spec.antt =====
-- What a claim store promises: a set of occurrences, each claimed once, and forgotten up to a cursor.
use atlas_manager.Base.{
  Bool, true, false, not, ◌&&◌, List, [], ◌∷◌, Str, str_eq, str_lt, Result, ok, err, any, keep,
  if◌then◌else◌,
}
use atlas_manager.Base.Platform.{Dates}
use atlas_manager.Power.Tick.{Occurrence}
use atlas_manager.Power.Interval.{IntervalError, create_occurrence}
use atlas_manager.Power.Claims.{
  Call, claim, prune_completed_through, Reply, claimed, duplicate, pruned, unchanged, failure,
  invalid,
}

-- The claimed occurrences, as pairs of the two times.
abbrev pub ClaimSet : Type 0
ClaimSet = List (Str × Str)

abbrev pub member : ClaimSet → Str → Str → Bool
member set s w = any (λ p. str_eq p.0 s && str_eq p.1 w) set

abbrev pub spec_claim : ClaimSet → Str → Str → ClaimSet × Reply
spec_claim set s w = if member set s w then (set, duplicate) else ((s, w) ∷ set, claimed)

abbrev pub spec_prune : ClaimSet → Str → ClaimSet × Reply
spec_prune set cursor = (
  keep (λ p. str_lt cursor p.0) set,
  if any (λ p. not (str_lt cursor p.0)) set then pruned else unchanged,
)

abbrev pub spec_claim_checked : ClaimSet → Result IntervalError Occurrence → Bool → ClaimSet × Reply
spec_claim_checked set (err e) fails = (set, invalid e)
spec_claim_checked set (ok o) true = (set, failure)
spec_claim_checked set (ok o) false = spec_claim set o.scheduled_for o.wake_scheduled_for

abbrev pub spec_prune_checked : ClaimSet → Str → Bool → ClaimSet × Reply
spec_prune_checked set cursor true = (set, failure)
spec_prune_checked set cursor false = spec_prune set cursor

abbrev pub spec_call : Dates → Bool → ClaimSet → Call → ClaimSet × Reply
spec_call d fails set (claim s w) = spec_claim_checked set (create_occurrence d s w) fails
spec_call d fails set (prune_completed_through cursor) = spec_prune_checked set cursor fails

abbrev pub spec_calls : Dates → Bool → ClaimSet → List Call → List Reply
spec_calls d fails set [] = []
spec_calls d fails set (c ∷ cs) =
    let (set', reply) = spec_call d fails set c in reply ∷ spec_calls d fails set' cs
