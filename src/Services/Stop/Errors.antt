-- ===== src/Services/Stop/Errors.antt =====
-- The stop of the requested services where the catalog or the graph cannot be read.
use atlas_manager.Base.{
  ◌⊎◌, inl, inr, ◌≡◌, refl, ap, ◌∙◌, true, false, List, [], ◌∷◌, Str, some, none, ok, all,
}
use atlas_manager.Base.Values.{Value}
use atlas_manager.Base.Pattern.{is_slug}
use atlas_manager.Base.Platform.{Dates}
use atlas_manager.Graph.{add_all}
use atlas_manager.Graph.Count.{count_self}
use atlas_manager.Services.State.{Service}
use atlas_manager.Services.Stop.{
  StopResult, StopPorts, failed, service_plan_invalid, is_requested_at, create_stop_result,
  failed_result, is_known, validate_input, stop_with_catalog, stop_with_graph, execute_stop,
}
use atlas_manager.Services.Stop.Input.{validate_input-IsRequest}

-- The result that names the first service, and no other, as failed.
abbrev pub refused : Str → Str → StopResult
refused requested_at id = record {
  requested_at = requested_at;
  steps = record { service_id = id; outcome = failed service_plan_invalid } ∷ [];
  successful = false;
}

failed_result-refused :
    {W : Type 0} (ports : StopPorts W) (d : Dates) (t id : Str) (ids : List Str)
    → is_requested_at d t ≡ true
    → is_slug id ≡ true
    → failed_result ports d t (id ∷ ids) ≡ ok (refused t id)
unfolding create_stop_result add_all
failed_result-refused ports d t id ids timed slug = rw (timed, slug) refl

-- Where the catalog cannot be read, or all requested services are in it and the graph cannot be read, the stop of
-- an admitted request at a canonical time returns the result in which the first service failed, and stops nothing.
pub execute_stop-refused :
    {W : Type 0} (ports : StopPorts W) (d : Dates) (input : Value) (id : Str) (ids : List Str)
    (requested_at : Str) (w : W)
    → validate_input input ≡ ok (id ∷ ids)
    → is_requested_at d requested_at ≡ true
    → (ports.catalog ≡ none)
      ⊎ ((services : List Service) × (ports.catalog ≡ some services)
          × (all (is_known services) (id ∷ ids) ≡ true)
          × (ports.graph ≡ none))
    → execute_stop ports d input requested_at w ≡ (w, ok (refused requested_at id))
unfolding execute_stop
execute_stop-refused ports d input id ids requested_at w admitted timed unread =
    rw (admitted, execute_stop)
      (elim unread [
        | inl unlisted ↦
            ap (λ c. stop_with_catalog ports d (id ∷ ids) requested_at c w) unlisted
            ∙ ap (λ r. (w, r)) failure
        | inr (services, listed, known, no_graph) ↦
            ap (λ c. stop_with_catalog ports d (id ∷ ids) requested_at c w) listed
            ∙ rw (known, stop_with_catalog)
                (ap (λ o. stop_with_graph ports d services (id ∷ ids) requested_at o w) no_graph
                  ∙ ap (λ r. (w, r)) failure)
      ])
  where
    failure : failed_result ports d requested_at (id ∷ ids) ≡ ok (refused requested_at id)
    failure =
        failed_result-refused ports d requested_at id ids timed
          ((validate_input-IsRequest input (id ∷ ids) admitted).slugs id (count_self id ids))
