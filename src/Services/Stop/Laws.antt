-- ===== src/Services/Stop/Laws.antt =====
-- The stop of the requested services, from the request to the result.
use atlas_manager.Base.{◌≡◌, false, List, [], ◌∷◌, Str, map}
use atlas_manager.Graph.{Graph}
use atlas_manager.Services.Stop.{
  finish_stops, StopFailure, StopOutcome, failed, StopStep, is_failed, finish_stops,
}

abbrev pub step_ids : List StopStep → List Str
step_ids steps = map (λ s. s.service_id) steps

-- The steps follow the order, up to the first that fails.
pub data Runs : List Str → List StopStep → Type 0 where
  all_done : Runs [] []
  fails :
      (id : Str) (ids : List Str) (c : StopFailure)
      → Runs (id ∷ ids) (record { service_id = id; outcome = failed c } ∷ [])
  goes_on :
      (id : Str) (o : StopOutcome) (ids : List Str) (steps : List StopStep)
      → is_failed (record { service_id = id; outcome = o }) ≡ false
      → Runs ids steps
      → Runs (id ∷ ids) (record { service_id = id; outcome = o } ∷ steps)
