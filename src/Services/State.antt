-- ===== src/Services/State.antt =====
-- The state of a service as a status reader reports it, and a service of the catalog.
use atlas_manager.Base.{List, [], ◌∷◌, Str, lit, true, false, str_eq, Option, some, none}

pub data ServiceState : Type 0 where
  running stopped failed unknown : ServiceState

pub data Operation : Type 0 where
  start stop restart : Operation

abbrev pub operation_name : Operation → Str
operation_name start = lit "start"
operation_name stop = lit "stop"
operation_name restart = lit "restart"

pub record Service : Type 0 where
  pub id : Str
  pub supported_operations : List Str

-- `new Map(services.map((service) => [service.id, service])).get(id)`: the last service of the id.
unfoldable pub find_service : List Service → Str → Option Service
find_service [] id = none
find_service (s ∷ ss) id = elim (find_service ss id) [
  | some later ↦ some later
  | none ↦ elim (str_eq s.id id) [ true ↦ some s | false ↦ none ]
]
