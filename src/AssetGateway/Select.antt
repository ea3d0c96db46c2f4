-- ===== src/AssetGateway/Select.antt =====
-- `AssetRoute` and `select_route` of services/asset_gateway/app.py.
use honeypot_fyp.Prelude.{
  ℕ, String, Bool, List, [], ◌∷◌, Option, none, some, filter, ◌==◌, string_eq, nat_eq,
  if◌then◌else◌,
}
use honeypot_fyp.Common.Sorting.{sort_by, last}
use honeypot_fyp.Common.Text.Order.{text_lt}

pub record AssetRoute : Type 0 where
  pub attacker_key : String
  pub binding_id : String
  pub asset_id : String
  pub public_port : ℕ
  pub backend_host : String
  pub backend_port : ℕ
  pub updated_at : String

abbrev pub is_on_port : ℕ → AssetRoute → Bool
is_on_port public_port route = route.public_port == public_port

abbrev pub is_of_client : String → AssetRoute → Bool
is_of_client client_ip route = route.attacker_key == client_ip

unfoldable pub updated_before : AssetRoute → AssetRoute → Bool
unfolding text_lt
updated_before a b = text_lt a.updated_at b.updated_at

-- `port_routes[0]` where there is one route only
unfoldable pub single_route : List AssetRoute → Option AssetRoute
single_route (route ∷ []) = some route
single_route _ = none

abbrev pub or_fallback : Option AssetRoute → Option AssetRoute → Option AssetRoute
or_fallback (some route) other = some route
or_fallback none other = other

unfoldable pub exact_route : String → List AssetRoute → Option AssetRoute
unfolding last sort_by updated_before
exact_route client_ip port_routes =
    last (sort_by updated_before (filter (is_of_client client_ip) port_routes))

unfoldable pub select_route : List AssetRoute → String → ℕ → Bool → Option AssetRoute
unfolding exact_route single_route
select_route routes client_ip public_port allow_single_route_fallback =
    let port_routes = filter (is_on_port public_port) routes in
    or_fallback (exact_route client_ip port_routes)
      (if allow_single_route_fallback then single_route port_routes else none)
