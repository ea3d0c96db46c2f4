-- ===== src/Orchestrator/Steps.antt =====
-- The state of `OrchestratorService` of services/orchestrator/domain.py, and the helpers of its `apply`.
-- `times` gives what each call reads from the clock.
use Prim.Native.String.{◌++◌ as concat}
use honeypot_fyp.Prelude.{
  ℕ, suc, String, List, [], ◌∷◌, ◌++◌, Option, none, some, if◌then◌else◌, ◌==◌, string_eq,
}
use honeypot_fyp.Common.Dict.{Dict, get}
use honeypot_fyp.Common.Json.{Json, obj, fields}
use honeypot_fyp.Common.Text.{non_blank}
use honeypot_fyp.Contracts.Assets.{AssetDefinition}
use honeypot_fyp.Contracts.Actions.{
  bind, unlock, configure, recycle, route_update, noop, ControllerAction,
}
use honeypot_fyp.Contracts.Bindings.{BindingRecord}
use honeypot_fyp.Binding.Repository.{Records}
use honeypot_fyp.Binding.Service as Bindings
use honeypot_fyp.Binding.Service.{Outcome, ok, binding_not_found, ◌>>=◌}
use honeypot_fyp.Gateway.Service.{Routes}
use honeypot_fyp.Orchestrator.Runtime.{AssetRuntimeRecord, FalcoEvent, TemplateRuntime}
use honeypot_fyp.Orchestrator.Routes.{unlock_route_updates}

-- What an `OrchestratorService` is made of, and the clock.
pub record Orchestrator (F R : Type 0) : Type 0 where
  pub ttl : ℕ
  pub catalog : Option (List (AssetDefinition F))
  pub runtime : Option (TemplateRuntime F R)
  pub times : ℕ → ℕ

-- The stored state of the services, and how often the clock was read.
pub record World (R : Type 0) : Type 0 where
  pub records : Records
  pub gateway : Routes
  pub containers : R
  pub reads : ℕ

-- The variables of `apply`.
pub record Progress (F R : Type 0) : Type 0 where
  pub world : World R
  pub binding : BindingRecord
  pub route_updates : List String
  pub runtime_events : List (AssetRuntimeRecord F)
  pub monitoring_events : List (FalcoEvent F)

-- The branches of `apply`, by the truth values that it tests.
pub data Task (F : Type 0) : Type 0 where
  unlock_one : String → Task F
  configure_one : String → String → Option String → Dict (Json F) → Task F
  update_route : String → Task F
  recycle_binding : Task F
  nothing : Task F

module _ {F : Type 0} where
  unfoldable pub configure_task :
      Option String → Option String → Option String → Dict (Json F) → Task F
  configure_task (some asset_id) (some configuration_id) target configuration =
      configure_one asset_id configuration_id target configuration
  configure_task _ _ target configuration = nothing

  unfoldable pub unlock_task : Option String → Task F
  unlock_task (some asset_id) = unlock_one asset_id
  unlock_task none = nothing

  unfoldable pub task_of : ControllerAction F → Task F
  unfolding configure_task unlock_task
  task_of action = elim action.action_type [
    | unlock ↦ unlock_task (non_blank action.asset_id)
    | configure ↦
        configure_task (non_blank action.asset_id) (non_blank action.configuration_id)
          (non_blank action.target_asset_id) action.configuration
    | route_update ↦ update_route action.reason
    | recycle ↦ recycle_binding
    | bind ↦ nothing
    | noop ↦ nothing
  ]

  -- `_asset_by_id`
  unfoldable pub asset_by_id : String → List (AssetDefinition F) → Option (AssetDefinition F)
  asset_by_id asset_id [] = none
  asset_by_id asset_id (asset ∷ rest) =
      if asset.asset_id == asset_id then some asset else asset_by_id asset_id rest

  -- `_configuration_target_runtime`
  unfoldable pub target_runtime : Dict (Json F) → Option (Dict (Json F))
  unfolding get
  target_runtime configuration = elim (get "target_runtime" configuration) [
    | some (obj fs) ↦ some (fields fs)
    | _ ↦ none
  ]

  -- `_stopped_monitoring_events`
  unfoldable pub stopped_event : ℕ → AssetRuntimeRecord F → FalcoEvent F
  stopped_event now r = record {
    ts = now;
    falco_rule = "Honeynet asset template stopped";
    priority = "low";
    output = concat "asset " (
        concat r.asset_id (
          concat " stopped for binding " (
            concat r.binding_id (
              concat " template_family=" (elim (non_blank r.template_family) [
                | some family ↦ family
                | none ↦ "unknown"
              ])))));
    tags = "honeynet_asset_runtime" ∷ [];
    runtime_record = r;
  }

  unfoldable pub stopped_events : (ℕ → ℕ) → ℕ → List (AssetRuntimeRecord F) → List (FalcoEvent F)
  unfolding stopped_event
  stopped_events times n [] = []
  stopped_events times n (r ∷ rest) = stopped_event (times n) r ∷ stopped_events times (suc n) rest

  unfoldable pub catalog_asset :
      Option (List (AssetDefinition F)) → String → Option (AssetDefinition F)
  unfolding asset_by_id
  catalog_asset none asset_id = none
  catalog_asset (some assets) asset_id = asset_by_id asset_id assets

module _ {R : Type 0} where
  -- the world after a call of the binding service, which reads the clock once
  abbrev pub stored : Records → World R → World R
  stored records w = record w { records = records; reads = suc w.reads }

module _ {F R : Type 0} where
  abbrev pub now : Orchestrator F R → Progress F R → ℕ
  now o p = o.times p.world.reads

  -- a record that a call may have made, and its event
  abbrev pub noted : Option (AssetRuntimeRecord F) → R → Progress F R → Progress F R
  noted none containers p = record p { world = record p.world { containers = containers } }
  noted (some r) containers p = record p {
    world = record p.world { containers = containers };
    runtime_events = p.runtime_events ++ r ∷ [];
  }

  unfoldable pub start_with :
      Option (TemplateRuntime F R)
      → Option (AssetDefinition F)
      → Option (Dict (Json F))
      → Progress F R
      → Progress F R
  start_with (some runtime) (some asset) override p =
      let (r, containers) =
        runtime.start_asset p.binding.binding_id asset p.binding.attacker_key override
          p.world.containers in
      record p {
        world = record p.world { containers = containers };
        runtime_events = p.runtime_events ++ r ∷ [];
        monitoring_events = p.monitoring_events ++ runtime.monitoring_event_for r ∷ [];
      }
  start_with _ _ override p = p

  -- `_start_asset_runtime`, and the events that `apply` keeps of it
  unfoldable pub start_asset_runtime :
      Orchestrator F R → Option (Dict (Json F)) → String → Progress F R → Progress F R
  unfolding start_with catalog_asset
  start_asset_runtime o override asset_id p =
      start_with o.runtime (catalog_asset o.catalog asset_id) override p

  -- a loop over new ids; the override is for the target of a configuration only
  unfoldable pub start_all :
      Orchestrator F R
      → Option String
      → Option (Dict (Json F))
      → List String
      → Progress F R
      → Progress F R
  unfolding start_asset_runtime
  start_all o target override [] p = p
  start_all o target override (id ∷ rest) p = start_all o target override rest (
      start_asset_runtime o
        (elim target [ some t ↦ if id == t then override else none | none ↦ none ]) id p)

  unfoldable pub configure_with :
      Option (TemplateRuntime F R) → String → String → Dict (Json F) → Progress F R → Progress F R
  configure_with none asset_id configuration_id configuration p = p
  configure_with (some runtime) asset_id configuration_id configuration p =
      let (r, containers) =
        runtime.apply_configuration p.binding.binding_id asset_id configuration_id configuration
          p.world.containers in
      noted r containers p

  -- `_apply_asset_configuration`
  unfoldable pub apply_asset_configuration :
      Orchestrator F R → String → String → Dict (Json F) → Progress F R → Progress F R
  unfolding configure_with
  apply_asset_configuration o = configure_with o.runtime

  -- `_apply_unlocks`, and the updates that `apply` adds
  unfoldable pub apply_unlocks :
      Orchestrator F R → String → List String → Progress F R → Outcome (Progress F R × List String)
  unfolding Bindings.unlock_assets unlock_route_updates
  apply_unlocks o binding_id asset_ids p = do
    (updated, records) ← Bindings.unlock_assets (now o p) asset_ids binding_id p.world.records
    let updates =
        unlock_route_updates binding_id p.binding.unlocked_assets updated.unlocked_assets asset_ids
    ok (
      record p {
        world = stored records p.world;
        binding = updated;
        route_updates = p.route_updates ++ updates;
      },
      updates,
    )
