-- ===== src/AssetGateway/Upsert.antt =====
-- `upsert_asset_gateway_routes` of services/orchestrator/runtime_routes.py, which writes the table that the
-- gateway reads.
use honeypot_fyp.Prelude.{ℕ, String, List, [], ◌∷◌, Option, none, some, is_empty, if◌then◌else◌}
use honeypot_fyp.Common.Dict.{Dict, get}
use honeypot_fyp.Common.Json.{Json, num, text, arr, obj, items, fields}
use honeypot_fyp.Common.Numbers.{Numbers, as_int}
use honeypot_fyp.Common.Text.{is_blank}
use honeypot_fyp.Common.JsonStore.{Payload}
use honeypot_fyp.Common.JsonStore.Replace.{replaced}
use honeypot_fyp.Contracts.Assets.{AssetDefinition}

-- What is the same in all routes of a call; `updated_at` is the clock.
pub record RouteContext : Type 0 where
  pub binding_id : String
  pub attacker_key : String
  pub asset_id : String
  pub asset_name : String
  pub protocol : String
  pub backend_ip : String
  pub updated_at : String

abbrev pub route_key : List String
route_key = "binding_id" ∷ "asset_id" ∷ "public_port" ∷ []

-- `str(asset.protocols[0]) if asset.protocols else "tcp"`
abbrev pub first_or_tcp : List String → String
first_or_tcp [] = "tcp"
first_or_tcp (protocol ∷ rest) = protocol

module _ {F : Type 0} where
  -- `v if isinstance(v, str) else ""`
  abbrev pub text_or_empty : Option (Json F) → String
  text_or_empty (some (text s)) = s
  text_or_empty _ = ""

  -- `isinstance(v, str) and v`
  abbrev pub host_name : Option (Json F) → Option String
  host_name (some (text s)) = if is_blank s then none else some s
  host_name _ = none

  -- `route.get("backend_port", route.get("container_port"))`
  unfoldable pub backend_port_of : Dict (Json F) → Option (Json F)
  unfolding get
  backend_port_of route = elim (get "backend_port" route) [
    | some v ↦ some v
    | none ↦ get "container_port" route
  ]

  unfoldable pub context_of :
      String → String → String → AssetDefinition F → Dict (Json F) → RouteContext
  unfolding get
  context_of updated_at binding_id attacker_key asset settings = record {
    binding_id = binding_id;
    attacker_key = attacker_key;
    asset_id = asset.asset_id;
    asset_name = asset.asset_name;
    protocol = first_or_tcp asset.protocols;
    backend_ip = text_or_empty (get "backend_ip" settings);
    updated_at = updated_at;
  }

module _ {F : Type 0} ⦃numbers : Numbers F⦄ (c : RouteContext) where
  unfoldable pub route_entry : ℕ → String → ℕ → Dict (Json F)
  route_entry public_port backend_host backend_port =
      ("schema_version", text "v1")
      ∷ ("attacker_key", text c.attacker_key)
      ∷ ("binding_id", text c.binding_id)
      ∷ ("asset_id", text c.asset_id)
      ∷ ("asset_name", text c.asset_name)
      ∷ ("protocol", text c.protocol)
      ∷ ("public_port", num (numbers.of_int public_port))
      ∷ ("backend_host", text backend_host)
      ∷ ("backend_port", num (numbers.of_int backend_port))
      ∷ ("backend_ip", text c.backend_ip)
      ∷ ("updated_at", text c.updated_at)
      ∷ []

  -- the body of the loop, with a `continue` at each `none`
  unfoldable pub entry_from : Option ℕ → Option String → Option ℕ → Option (Dict (Json F))
  unfolding route_entry
  entry_from (some public_port) (some backend_host) (some backend_port) =
      some (route_entry public_port backend_host backend_port)
  entry_from _ _ _ = none

  unfoldable pub entry_of : Dict (Json F) → Option (Dict (Json F))
  unfolding entry_from backend_port_of get
  entry_of route =
      entry_from (as_int (get "host_port" route)) (host_name (get "backend_host" route))
        (as_int (backend_port_of route))

  unfoldable pub new_routes : List (Json F) → List (Dict (Json F))
  unfolding entry_of
  new_routes [] = []
  new_routes (obj fs ∷ rest) = elim (entry_of (fields fs)) [
    | some entry ↦ entry ∷ new_routes rest
    | none ↦ new_routes rest
  ]
  new_routes (item ∷ rest) = new_routes rest

module _ {F : Type 0} ⦃numbers : Numbers F⦄ where
  -- the mappings where they are a list; a missing one is the empty list
  abbrev pub mappings_in : Dict (Json F) → List (Json F)
  unfolding get
  mappings_in settings = elim (get "port_mappings" settings) [ some (arr vs) ↦ items vs | _ ↦ [] ]

  -- The table after the call; none where `replace_list_items` raises.
  unfoldable pub upsert_asset_gateway_routes :
      String → String → String → AssetDefinition F → Dict (Json F) → Payload F → Option (Payload F)
  unfolding new_routes context_of replaced get
  upsert_asset_gateway_routes updated_at binding_id attacker_key asset settings payload =
      let entries =
        new_routes (context_of updated_at binding_id attacker_key asset settings)
          (mappings_in settings) in
      if is_empty entries then some payload else replaced "routes" entries route_key payload
