-- ===== src/Services/Stop.antt =====
-- orchestrate-registered-services-stop.ts: the services are stopped before the machine is, dependents first. The
-- result is checked as in domain/registered-services-stop-result.ts.
pub mod Order
pub mod Input
pub mod Laws
pub mod Errors
use atlas_manager.Base.{
  ℕ, zero, suc, ◌≡◌, Bool, true, false, not, ◌&&◌, ◌||◌, List, [], ◌∷◌, ◌++◌, Str, lit, str_eq,
  Option, some, none, Result, ok, err, ◌>>=◌, ◌>>◌, throw_if, length, any, all, keep, ltb, ◌==◌,
  includes, map, if◌then◌else◌,
}
use atlas_manager.Base.Values.{
  Value, Values, Fields, Key, name, symbol, list_values, own_keys, get_field, read_field, as_object,
  is_expected,
}
use atlas_manager.Base.Platform.{Dates, is_canonical_timestamp}
use atlas_manager.Base.Pattern.{is_slug, matches, times, is_digit, is_char}
use atlas_manager.Graph.{Graph, add_all, direct_dependents_of}
use atlas_manager.Services.State.{ServiceState, Service, find_service}
use atlas_manager.Services.Stop.Order.{dependent_first_requested_order}

pub data StopFailure : Type 0 where
  service_status_failed service_stop_not_supported : StopFailure
  service_stop_failed service_plan_invalid : StopFailure

pub data StopOutcome : Type 0 where
  stopped already_stopped : StopOutcome
  failed : StopFailure → StopOutcome

pub record StopStep : Type 0 where
  pub service_id : Str
  pub outcome : StopOutcome

pub record StopResult : Type 0 where
  pub requested_at : Str
  pub steps : List StopStep
  pub successful : Bool

-- `plan_invalid` is the error that `execute` throws; the others are those of the result.
pub data StopError : Type 0 where
  plan_invalid invalid_result invalid_step : StopError

abbrev pub is_failed : StopStep → Bool
is_failed s = elim s.outcome [ failed c ↦ true | stopped ↦ false | already_stopped ↦ false ]

-- `new Set(ids).size === ids.length`.
abbrev pub are_distinct : List Str → Bool
are_distinct ids = length (add_all [] ids) == length ids

-- `/^\d{4}-\d{2}-\d{2}T\d{2}:\d{2}:\d{2}\.\d{3}Z$/u`.
abbrev pub iso_pattern : List (ℕ → Bool)
iso_pattern =
    times 4 is_digit
    ++ (is_char b'-' ∷ times 2 is_digit)
    ++ (is_char b'-' ∷ times 2 is_digit)
    ++ (is_char b'T' ∷ times 2 is_digit)
    ++ (is_char b':' ∷ times 2 is_digit)
    ++ (is_char b':' ∷ times 2 is_digit)
    ++ (is_char b'.' ∷ times 3 is_digit)
    ++ (is_char b'Z' ∷ [])

abbrev pub is_requested_at : Dates → Str → Bool
is_requested_at d t = matches iso_pattern t && is_canonical_timestamp d (Value.string t)

abbrev pub last_failed : List StopStep → Bool
last_failed [] = false
last_failed (s ∷ []) = is_failed s
last_failed (s ∷ t ∷ ss) = last_failed (t ∷ ss)

abbrev pub bool_eq : Bool → Bool → Bool
bool_eq true b = b
bool_eq false b = not b

-- The checks of the result, on steps that have the three fields.
unfoldable pub create_stop_result : Dates → Str → List StopStep → Bool → Result StopError StopResult
create_stop_result d requested_at steps successful = do
  throw_if (not (is_requested_at d requested_at)) invalid_result
  throw_if (not (all (λ s. is_slug s.service_id) steps)) invalid_step
  throw_if
      (ltb (length steps) 1
        || (ltb 64 (length steps) || not (are_distinct (map (λ s. s.service_id) steps))))
      invalid_result
  throw_if (bool_eq successful (any is_failed steps)) invalid_result
  throw_if (any is_failed steps && not (last_failed steps)) invalid_result
  ok (record { requested_at = requested_at; steps = steps; successful = successful })

-- The identifiers, if each value is a string of their form.
abbrev pub slugs_of : List Value → Option (List Str)
slugs_of [] = some []
slugs_of (Value.string s ∷ vs) =
    let rest = slugs_of vs in
    elim (is_slug s) [ true ↦ elim rest [ some ids ↦ some (s ∷ ids) | none ↦ none ] | false ↦ none ]
slugs_of (v ∷ vs) = none

abbrev pub is_machine_shutdown : Value → Bool
is_machine_shutdown (Value.string s) = str_eq s (lit "machine_shutdown")
is_machine_shutdown v = false

abbrev pub input_fields : List Str
input_fields = lit "serviceIds" ∷ lit "authority" ∷ []

abbrev pub ids_of_array : Fields → List Value → Result StopError (List Str)
ids_of_array fs vs = do
  throw_if (ltb (length vs) 1 || ltb 64 (length vs)) plan_invalid
  elim (slugs_of vs) [
    | none ↦ err plan_invalid
    | some ids ↦ do
      throw_if (not (are_distinct ids) || not (all (is_expected input_fields) (own_keys fs)))
          plan_invalid
      ok ids
  ]

abbrev pub ids_of_value : Fields → Value → Result StopError (List Str)
ids_of_value fs (Value.array vs) = ids_of_array fs (list_values vs)
ids_of_value fs v = err plan_invalid

unfoldable pub validate_input : Value → Result StopError (List Str)
validate_input input = elim (as_object input) [
  | none ↦ err plan_invalid
  | some fs ↦ do
    throw_if (not (is_machine_shutdown (read_field fs (lit "authority")))) plan_invalid
    ids_of_value fs (read_field fs (lit "serviceIds"))
]

-- The collaborators. `none` is a call that throws; `false` a stop that throws.
pub record StopPorts (W : Type 0) : Type 0 where
  pub catalog : Option (List Service)
  pub read_status : Service → Option ServiceState
  pub graph : Option Graph
  pub stop_service : Service → W → W × Bool

abbrev pub is_known : List Service → Str → Bool
is_known services id = elim (find_service services id) [ some s ↦ true | none ↦ false ]

module _ {W : Type 0} (ports : StopPorts W) where
  -- The snapshot of a requested service, with the service: a status that cannot be read is unknown.
  abbrev pub snapshot : List Service → List Str → Str → Option (Service × ServiceState)
  snapshot services requested id = elim (includes requested id) [
    | false ↦ none
    | true ↦ elim (find_service services id) [
      | none ↦ none
      | some s ↦
          some (s, elim (ports.read_status s) [ some state ↦ state | none ↦ ServiceState.unknown ])
    ]
  ]

  abbrev pub stop_running : Service → W → W × StopOutcome
  stop_running s w = elim (includes s.supported_operations (lit "stop")) [
    | false ↦ (w, failed service_stop_not_supported)
    | true ↦
        let (w', returned) = ports.stop_service s w in
        (w', elim returned [ true ↦ stopped | false ↦ failed service_stop_failed ])
  ]

  abbrev pub stop_in_state : Option (Service × ServiceState) → W → W × StopOutcome
  stop_in_state none w = (w, failed service_plan_invalid)
  stop_in_state (some (s, ServiceState.stopped)) w = (w, already_stopped)
  stop_in_state (some (s, ServiceState.running)) w = stop_running s w
  stop_in_state (some (s, ServiceState.failed)) w = (w, failed service_status_failed)
  stop_in_state (some (s, ServiceState.unknown)) w = (w, failed service_status_failed)

  abbrev pub add_step : Str → StopOutcome → W → W × List StopStep → W × List StopStep
  add_step id (failed c) w later = (w, record { service_id = id; outcome = failed c } ∷ [])
  add_step id o w (w', steps) = (w', record { service_id = id; outcome = o } ∷ steps)

  -- The loop: the first step that fails is the last.
  unfoldable pub run_stops :
      (Str → Option (Service × ServiceState)) → List Str → W → W × List StopStep
  run_stops snap [] w = (w, [])
  run_stops snap (id ∷ ids) w =
      let (w', outcome) = stop_in_state (snap id) w in
      add_step id outcome w' (run_stops snap ids w')

  module _ (d : Dates) where
    abbrev pub failed_result : Str → List Str → Result StopError StopResult
    failed_result requested_at [] = err plan_invalid
    failed_result requested_at (id ∷ ids) =
        create_stop_result d requested_at
          (record { service_id = id; outcome = failed service_plan_invalid } ∷ []) false

    abbrev pub finish_stops : Str → W × List StopStep → W × Result StopError StopResult
    finish_stops requested_at (w, steps) =
        (w, create_stop_result d requested_at steps (not (any is_failed steps)))

    abbrev pub stop_ordered :
        List Service → List Str → Str → Option (List Str) → W → W × Result StopError StopResult
    stop_ordered services ids requested_at none w = (w, failed_result requested_at ids)
    stop_ordered services ids requested_at (some order) w =
        finish_stops requested_at (run_stops (snapshot services ids) order w)

    abbrev pub stop_with_graph :
        List Service → List Str → Str → Option Graph → W → W × Result StopError StopResult
    stop_with_graph services ids requested_at none w = (w, failed_result requested_at ids)
    stop_with_graph services ids requested_at (some g) w =
        stop_ordered services ids requested_at
          (dependent_first_requested_order (direct_dependents_of g) ids) w

    abbrev pub stop_with_catalog :
        List Str → Str → Option (List Service) → W → W × Result StopError StopResult
    stop_with_catalog ids requested_at none w = (w, failed_result requested_at ids)
    stop_with_catalog ids requested_at (some services) w = elim (all (is_known services) ids) [
      | false ↦ (w, err plan_invalid)
      | true ↦ stop_with_graph services ids requested_at ports.graph w
    ]

    unfoldable pub execute_stop : Value → Str → W → W × Result StopError StopResult
    execute_stop input requested_at w = elim (validate_input input) [
      | err e ↦ (w, err e)
      | ok ids ↦ stop_with_catalog ids requested_at ports.catalog w
    ]
