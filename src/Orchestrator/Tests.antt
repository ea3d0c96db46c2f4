-- ===== src/Orchestrator/Tests.antt =====
-- An `apply` at a concrete binding, with a runtime that starts every asset.
use honeypot_fyp.Prelude.{
  ℕ, String, List, [], ◌∷◌, ◌++◌, none, some, ◌≡◌, refl, not, ◌&&◌, filter, member, string_eq,
}
use honeypot_fyp.Common.Dict.{get, of_pairs}
use honeypot_fyp.Contracts.Assets.{AssetDefinition, internal_exposure, low_interaction}
use honeypot_fyp.Contracts.Actions.{ControllerAction, unlock, configure, OrchestratorApplyRequest}
use honeypot_fyp.Contracts.Bindings.{BindingRecord, active}
use honeypot_fyp.Binding.Repository.{get_by_binding}
use honeypot_fyp.Binding.Service.{ok}
use honeypot_fyp.Common.Text.{after_last, begins}
use honeypot_fyp.Orchestrator.Runtime.{
  AssetRuntimeRecord, running, TemplateRuntime, OrchestratorApplyResponse,
}
use honeypot_fyp.Orchestrator.Routes.{new_asset_ids, unlock_route_updates, routes}
use honeypot_fyp.Orchestrator.Steps.{Orchestrator, World}
use honeypot_fyp.Orchestrator.Service.{apply}
use honeypot_fyp.Orchestrator.Promise.{IsApplied, apply-IsApplied}
use honeypot_fyp.Orchestrator.Updates.{IsReadable, new_asset_ids-unlock_route_updates}

abbrev pub bound : BindingRecord
bound = record {
  binding_id = "b-1";
  attacker_key = "198.51.100.10";
  backend_instance_id = "ns-b-1";
  status = active;
  first_seen_ts = 100;
  last_seen_ts = 100;
  ttl_expires_at = 700;
  volume_ref = some "vol-b-1";
  unlocked_assets = "internal-portal" ∷ [];
  revealed_configurations = [];
}

abbrev git : AssetDefinition ℕ
git = record {
  asset_id = "git-internal";
  asset_name = "Git";
  exposure_type = internal_exposure;
  interaction_level = low_interaction;
  description = none;
  template_family = some "developer";
  protocols = "http" ∷ [];
  ports = 3000 ∷ [];
  source_refs = [];
  telemetry_source = none;
  default_settings = [];
  covers_tactics = [];
  dependencies = [];
}

abbrev started : String → String → AssetRuntimeRecord ℕ
started binding_id asset_id = record {
  runtime_id = asset_id;
  binding_id = binding_id;
  asset_id = asset_id;
  asset_name = asset_id;
  template_family = none;
  status = running;
  protocols = [];
  ports = [];
  settings = [];
  source_refs = [];
  started_at = 0;
}

-- the containers that run
abbrev runtime : TemplateRuntime ℕ (List String)
runtime = record {
  start_asset =
      λ id asset attacker override up. (started id asset.asset_id, up ++ asset.asset_id ∷ []);
  prewarm_asset = λ id asset up. (started id asset.asset_id, up);
  apply_configuration = λ id asset configuration settings up. (none, up);
  stop_binding_assets = λ id up. ([], []);
  list_accessible_asset_ids = λ id up. up;
  list_failed_asset_ids = λ id up. [];
  monitoring_event_for = λ r. record {
    ts = 0;
    falco_rule = "Honeynet asset template started";
    priority = "low";
    output = "";
    tags = [];
    runtime_record = r;
  };
}

abbrev pub orchestrator : Orchestrator ℕ (List String)
orchestrator = record {
  ttl = 600;
  catalog = some (git ∷ []);
  runtime = some runtime;
  times = λ n. 200;
}

abbrev pub world : World (List String)
world = record {
  records = bound ∷ [];
  gateway = [];
  containers = "internal-portal" ∷ [];
  reads = 0;
}

abbrev action : ControllerAction ℕ
action = record {
  action_type = unlock;
  binding_id = "b-1";
  asset_id = some "git-internal";
  configuration_id = none;
  target_asset_id = none;
  configuration = [];
  reason = "exploit selected git-internal";
}

abbrev clue : ControllerAction ℕ
clue = record action {
  action_type = configure;
  configuration_id = some "git-db-credential-clue";
  target_asset_id = some "ops-db";
}

abbrev request : OrchestratorApplyRequest ℕ
request = record { binding_id = "b-1"; actions = action ∷ clue ∷ [] }

apply-IsApplied_example :
    (response : OrchestratorApplyResponse ℕ) × (w' : World (List String)) × (apply orchestrator
        request world
      ≡ ok (response, w'))
    × IsApplied orchestrator request world bound response w'
unfolding get_by_binding of_pairs get
apply-IsApplied_example = apply-IsApplied orchestrator request world bound refl

git-IsReadable : IsReadable "b-1" "git-internal"
unfolding after_last routes begins
git-IsReadable = record { no_exposes = refl; no_routes = refl; not_exposed = refl }

portal-IsReadable : IsReadable "b-1" "internal-portal"
unfolding after_last routes begins
portal-IsReadable = record { no_exposes = refl; no_routes = refl; not_exposed = refl }

abbrev open_before : List String
open_before = "internal-portal" ∷ []

abbrev open_after : List String
open_after = "internal-portal" ∷ "git-internal" ∷ []

abbrev asked : List String
asked = "git-internal" ∷ "internal-portal" ∷ []

new_asset_ids-unlock_route_updates_example :
    new_asset_ids (unlock_route_updates "b-1" open_before open_after asked)
    ≡ filter (λ id. not (member id open_before)) open_after
      ++ filter (λ id. member id open_before && member id open_after) asked
new_asset_ids-unlock_route_updates_example =
    new_asset_ids-unlock_route_updates "b-1" open_before open_after asked
      (portal-IsReadable, (git-IsReadable, tt)) (git-IsReadable, (portal-IsReadable, tt))
