-- ===== src/AssetGateway/Tests.antt =====
-- Two attackers on one port, and an upgrade behind a port.
use honeypot_fyp.Prelude.{ℕ, Bool, All, arith, false, List, [], ◌∷◌, ◌≡◌, none, some, refl}
use honeypot_fyp.Common.Dict.{Dict, get}
use honeypot_fyp.Common.Json.{Json, num, text, arr, obj, items_of, fields_of, Host}
use honeypot_fyp.Common.Numbers.{ints}
use honeypot_fyp.Common.JsonStore.{Payload}
use honeypot_fyp.Common.JsonStore.Replace.{compound_key, atom}
use honeypot_fyp.Contracts.Assets.{AssetDefinition, internal_exposure, high_interaction}
use honeypot_fyp.AssetGateway.Load.{load_routes, route_from_item, routes_from, text_at}
use honeypot_fyp.AssetGateway.Upsert.{upsert_asset_gateway_routes, context_of, backend_port_of}
use honeypot_fyp.AssetGateway.Ports.{
  Machine, PortRecord, container_port_of, raw_mappings, resolve_port_mappings,
}
use honeypot_fyp.AssetGateway.Bounds.{IsPort, resolve_port_mappings-ArePorts}
use honeypot_fyp.AssetGateway.Upgrade.{upsert-select_route, upsert-select_route_other}
use honeypot_fyp.Common.Sorting.{sort_by, insert_by, last}
use honeypot_fyp.Common.Text.Order.{text_lt}
use honeypot_fyp.AssetGateway.Select.{
  AssetRoute, select_route, exact_route, single_route, updated_before,
}
use honeypot_fyp.AssetGateway.Isolated.{IsFor, select_route-IsFor}

abbrev old : AssetRoute
old = record {
  attacker_key = "198.51.100.10";
  binding_id = "b-1";
  asset_id = "git-internal";
  public_port = 18080;
  backend_host = "honeynet-b-1-git-internal";
  backend_port = 3000;
  updated_at = "2026-01-01T00:00:00Z";
}

abbrev new : AssetRoute
new = record old { asset_id = "ops-db"; updated_at = "2026-01-02T00:00:00Z" }

abbrev other : AssetRoute
other = record old { attacker_key = "198.51.100.11"; updated_at = "2026-01-03T00:00:00Z" }

select_route-IsFor_example : IsFor (new ∷ other ∷ old ∷ []) "198.51.100.10" 18080 false new
unfolding select_route exact_route single_route updated_before sort_by insert_by last text_lt
select_route-IsFor_example =
    select_route-IsFor (new ∷ other ∷ old ∷ []) "198.51.100.10" 18080 false new refl

-- Every number is an int.
abbrev host : Host ℕ
host = record { path_exists = λ p. false; str_of = λ v. "" }

abbrev item : AssetRoute → Json ℕ
item r = obj (
    fields_of (
      ("attacker_key", text r.attacker_key)
      ∷ ("binding_id", text r.binding_id)
      ∷ ("asset_id", text r.asset_id)
      ∷ ("public_port", num r.public_port)
      ∷ ("backend_host", text r.backend_host)
      ∷ ("backend_port", num r.backend_port)
      ∷ ("updated_at", text r.updated_at)
      ∷ []))

abbrev foreign : AssetRoute
foreign = record old { binding_id = "b-2"; attacker_key = "198.51.100.11" }

abbrev table : Payload ℕ
table = ("routes", arr (items_of (item old ∷ item foreign ∷ []))) ∷ []

abbrev git : AssetDefinition ℕ
git = record {
  asset_id = "git-internal";
  asset_name = "Git";
  exposure_type = internal_exposure;
  interaction_level = high_interaction;
  description = none;
  template_family = none;
  protocols = "http" ∷ [];
  ports = [];
  source_refs = [];
  telemetry_source = none;
  default_settings = [];
  covers_tactics = [];
  dependencies = [];
}

abbrev settings : Dict (Json ℕ)
settings =
    (
      "port_mappings",
      arr (
          items_of (
            obj (
              fields_of (
                ("host_port", num 18080)
                ∷ ("container_port", num 80)
                ∷ ("backend_host", text "honeynet-b-1-git-high")
                ∷ []))
            ∷ [])),
    )
    ∷ []

abbrev upgraded : AssetRoute
upgraded = record old {
  backend_host = "honeynet-b-1-git-high";
  backend_port = 80;
  updated_at = "2026-01-04T00:00:00Z";
}

upsert-select_route_example :
    (after : Payload ℕ) × (routes : List AssetRoute) × (upsert_asset_gateway_routes
        "2026-01-04T00:00:00Z" "b-1" "198.51.100.10" git settings table
      ≡ some after)
    × (load_routes host after ≡ some routes)
    × ((fallback : Bool) → select_route routes "198.51.100.10" 18080 fallback ≡ some upgraded)
unfolding load_routes routes_from route_from_item text_at get compound_key atom context_of
    backend_port_of last text_lt
upsert-select_route_example =
    upsert-select_route host "2026-01-04T00:00:00Z" "b-1" "198.51.100.10" git settings table
      (old ∷ foreign ∷ []) 18080 upgraded ((_, refl), ((_, refl), tt)) refl refl refl

upsert-select_route_other_example :
    (after : Payload ℕ) × (routes : List AssetRoute) × (upsert_asset_gateway_routes
        "2026-01-04T00:00:00Z" "b-1" "198.51.100.10" git settings table
      ≡ some after)
    × (load_routes host after ≡ some routes)
    × (select_route routes "198.51.100.11" 18080 false
        ≡ select_route (old ∷ foreign ∷ []) "198.51.100.11" 18080 false)
unfolding load_routes routes_from route_from_item text_at get compound_key atom
upsert-select_route_other_example =
    upsert-select_route_other host "2026-01-04T00:00:00Z" "b-1" "198.51.100.10" git settings table
      (old ∷ foreign ∷ []) "198.51.100.11" 18080 refl ((_, refl), ((_, refl), tt)) refl refl

abbrev machine : Machine
machine = record {
  environ = λ name. none;
  upper = λ s. s;
  port_is_free = λ port. false;
  find_free_port = 40000;
}

abbrev runtime : Dict (Json ℕ)
runtime = ("requested_host_port", num 18080) ∷ ("container_port", num 80) ∷ []

resolve_port_mappings-ArePorts_example :
    (resolved : List PortRecord) × (resolve_port_mappings machine host
        (some "git-internal")
        false
        ""
        runtime
      ≡ some resolved)
    × All (λ r. IsPort r.host_port × IsPort r.container_port) resolved
unfolding raw_mappings container_port_of get
resolve_port_mappings-ArePorts_example =
    resolve_port_mappings-ArePorts machine host (some "git-internal") false "" runtime (omega arith)
      (((80, refl, omega arith), omega arith), tt)
