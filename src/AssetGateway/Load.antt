-- ===== src/AssetGateway/Load.antt =====
-- `load_routes` and `_route_from_item` of services/asset_gateway/app.py. The argument is what
-- `read_json_object` gives, which is an object; none is a value of a port that is no number.
use honeypot_fyp.Prelude.{String, List, [], ◌∷◌, Option, none, some}
use honeypot_fyp.Common.Dict.{Dict, get}
use honeypot_fyp.Common.Json.{Json, obj, fields, as_list, Host, text_of}
use honeypot_fyp.Common.Numbers.{Numbers, int_or_zero}
use honeypot_fyp.Common.JsonStore.Replace.{◌>>=◌}
use honeypot_fyp.AssetGateway.Select.{AssetRoute}

module _ {F : Type 0} ⦃numbers : Numbers F⦄ (host : Host F) where
  -- `str(item.get(key, ""))`
  unfoldable pub text_at : String → Dict (Json F) → String
  unfolding get text_of
  text_at key item = elim (get key item) [ some v ↦ text_of host v | none ↦ "" ]

  unfoldable pub route_from_item : Dict (Json F) → Option AssetRoute
  unfolding text_at get
  route_from_item item = do
    public_port ← int_or_zero (get "public_port" item)
    backend_port ← int_or_zero (get "backend_port" item)
    some (record {
      attacker_key = text_at "attacker_key" item;
      binding_id = text_at "binding_id" item;
      asset_id = text_at "asset_id" item;
      public_port = public_port;
      backend_host = text_at "backend_host" item;
      backend_port = backend_port;
      updated_at = text_at "updated_at" item;
    })

  -- the comprehension over the items that are objects
  unfoldable pub routes_from : List (Json F) → Option (List AssetRoute)
  unfolding route_from_item
  routes_from [] = some []
  routes_from (obj fs ∷ rest) = do
    route ← route_from_item (fields fs)
    routes ← routes_from rest
    some (route ∷ routes)
  routes_from (item ∷ rest) = routes_from rest

  unfoldable pub load_routes : Dict (Json F) → Option (List AssetRoute)
  unfolding routes_from get
  load_routes payload = routes_from (as_list (get "routes" payload))
