-- ===== src/Power/Claims.antt =====
-- infrastructure/in-memory-machine-shutdown-occurrence-claim-store.ts: which occurrences were claimed. The calls of
-- the store wait for each other, so they are the steps of a sequence.
pub mod Spec
pub mod Refinement
pub mod Examples
use atlas_manager.Base.{
  Bool, true, false, not, ◌||◌, ◌&&◌, List, [], ◌∷◌, ◌++◌, Str, str_eq, str_lt, Result, ok, err,
  includes, any, keep, if◌then◌else◌,
}
use atlas_manager.Base.Platform.{Dates}
use atlas_manager.Power.Tick.{Occurrence}
use atlas_manager.Power.Interval.{IntervalError, create_occurrence}

-- An entry of the map: a time and the set of its wake times.
abbrev pub Claims : Type 0
Claims = List (Str × List Str)

pub data Call : Type 0 where
  claim : Str → Str → Call
  prune_completed_through : Str → Call

-- `invalid` is the error of an occurrence that is not valid, `failure` the error the store is configured with.
pub data Reply : Type 0 where
  claimed duplicate pruned unchanged failure : Reply
  invalid : IntervalError → Reply

abbrev pub has_time : Claims → Str → Bool
has_time claims s = any (λ e. str_eq e.0 s) claims

-- `claims.get(scheduledFor).has(wakeScheduledFor)`.
unfoldable pub has_claim : Claims → Str → Str → Bool
has_claim [] s w = false
has_claim ((t, wakes) ∷ rest) s w = if str_eq t s then includes wakes w else has_claim rest s w

-- `wakes.add(wakeScheduledFor)` on the set of the time, which is made if there is none.
unfoldable pub add_claim : Claims → Str → Str → Claims
add_claim [] s w = (s, w ∷ []) ∷ []
add_claim ((t, wakes) ∷ rest) s w =
    let later = (t, wakes) ∷ add_claim rest s w in
    if str_eq t s then (t, wakes ++ (w ∷ [])) ∷ rest else later

-- An entry that is pruned is up to the cursor; one that stays has a wake time.
abbrev pub is_through : Str → Str × List Str → Bool
is_through cursor e = not (str_lt cursor e.0)

abbrev pub has_wakes : Str × List Str → Bool
has_wakes (t, []) = false
has_wakes (t, w ∷ wakes) = true

abbrev pub claim_occurrence : Claims → Str → Str → Claims × Reply
claim_occurrence claims s w =
    if has_claim claims s w then (claims, duplicate) else (add_claim claims s w, claimed)

abbrev pub prune_claims : Claims → Str → Claims × Reply
prune_claims claims cursor = (
  keep (λ e. not (is_through cursor e) && has_wakes e) claims,
  if any (is_through cursor) claims then pruned else unchanged,
)

-- A claim whose occurrence was checked; `fails` says that the store is configured with a failure.
abbrev pub claim_checked : Claims → Result IntervalError Occurrence → Bool → Claims × Reply
claim_checked claims (err e) fails = (claims, invalid e)
claim_checked claims (ok o) true = (claims, failure)
claim_checked claims (ok o) false = claim_occurrence claims o.scheduled_for o.wake_scheduled_for

abbrev pub prune_checked : Claims → Str → Bool → Claims × Reply
prune_checked claims cursor true = (claims, failure)
prune_checked claims cursor false = prune_claims claims cursor

unfoldable pub run_call : Dates → Bool → Claims → Call → Claims × Reply
run_call d fails claims (claim s w) = claim_checked claims (create_occurrence d s w) fails
run_call d fails claims (prune_completed_through cursor) = prune_checked claims cursor fails

-- A sequence of calls, with the replies.
unfoldable pub run_calls : Dates → Bool → Claims → List Call → List Reply
run_calls d fails claims [] = []
run_calls d fails claims (c ∷ cs) =
    let (claims', reply) = run_call d fails claims c in reply ∷ run_calls d fails claims' cs
