-- ===== src/Gateway/Service.antt =====
-- services/gateway/repository.py and domain.py: `FileGatewayRouteRepository` and `GatewayService`.
-- The state is the `routes` list of its JSON document, each item as the record that it validates to.
use honeypot_fyp.Prelude.{
  ℕ, String, List, [], ◌∷◌, ◌++◌, Option, none, some, ◌==◌, string_eq, if◌then◌else◌,
}
use honeypot_fyp.Common.Dict
use honeypot_fyp.Common.Dict.{Dict, values}
use honeypot_fyp.Common.JsonStore.Keyed.{by_key, upsert_keyed}
use honeypot_fyp.Contracts.Bindings.{GatewayBindingState, GatewaySyncRequest}

abbrev pub Routes : Type 0
Routes = List GatewayBindingState

abbrev pub binding_of : GatewayBindingState → String
binding_of state = state.binding_id

-- `_states_by_binding`
unfoldable pub states_by_binding : Routes → Dict GatewayBindingState
states_by_binding = by_key binding_of

-- `get`
unfoldable pub get : String → Routes → Option GatewayBindingState
unfolding states_by_binding
get binding_id routes = Dict.get binding_id (states_by_binding routes)

first_of_attacker : String → List GatewayBindingState → Option GatewayBindingState
first_of_attacker attacker_key [] = none
first_of_attacker attacker_key (state ∷ rest) =
    if state.attacker_key == attacker_key then some state else first_of_attacker attacker_key rest

-- `get_by_attacker`
unfoldable pub get_by_attacker : String → Routes → Option GatewayBindingState
unfolding first_of_attacker states_by_binding
get_by_attacker attacker_key routes =
    first_of_attacker attacker_key (values (states_by_binding routes))

-- `upsert`
unfoldable pub upsert : GatewayBindingState → Routes → GatewayBindingState × Routes
upsert state routes = (state, upsert_keyed binding_of state routes)

unfoldable pub list_all : Routes → List GatewayBindingState
unfolding states_by_binding
list_all routes = values (states_by_binding routes)

abbrev pub or_else : Option (List String) → List String → List String
or_else none fallback = fallback
or_else (some override) fallback = override

-- the route updates of a stored state, if there is one
abbrev pub updates_of : Option GatewayBindingState → List String
updates_of none = []
updates_of (some state) = state.route_updates

-- the state that `sync` stores
unfoldable pub synced : ℕ → GatewaySyncRequest → Option GatewayBindingState → GatewayBindingState
synced now request existing = record {
  binding_id = request.binding.binding_id;
  attacker_key = request.binding.attacker_key;
  backend_instance_id = request.binding.backend_instance_id;
  status = request.binding.status;
  exposed_assets = or_else request.exposed_assets_override request.binding.unlocked_assets;
  failed_assets = or_else request.failed_assets_override [];
  route_updates = updates_of existing ++ request.route_updates;
  updated_at = now;
}

unfoldable pub sync : ℕ → GatewaySyncRequest → Routes → GatewayBindingState × Routes
unfolding synced
sync now request routes = upsert (synced now request (get request.binding.binding_id routes)) routes

-- `get_state`; `none` is `GatewayStateNotFoundError`
unfoldable pub get_state : String → Routes → Option GatewayBindingState
get_state binding_id routes = get binding_id routes
