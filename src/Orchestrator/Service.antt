-- ===== src/Orchestrator/Service.antt =====
-- services/orchestrator/domain.py: `apply` of `OrchestratorService`. It changes the binding
-- records, the containers and the gateway's routes.
use honeypot_fyp.Prelude.{
  ℕ, suc, ◌+◌, String, Bool, true, false, not, List, [], ◌∷◌, ◌++◌, Option, none, some, member,
  length, if◌then◌else◌, string_eq,
}
use honeypot_fyp.Common.Dict.{Dict}
use honeypot_fyp.Common.Json.{Json}
use honeypot_fyp.Contracts.Actions.{ControllerAction, OrchestratorApplyRequest}
use honeypot_fyp.Contracts.Bindings.{BindingRecord, GatewaySyncRequest, idle_mode}
use honeypot_fyp.Binding.Service as Bindings
use honeypot_fyp.Binding.Service.{Outcome, ok, binding_not_found, ◌>>=◌}
use honeypot_fyp.Gateway.Service.{sync}
use honeypot_fyp.Orchestrator.Runtime.{TemplateRuntime, OrchestratorApplyResponse}
use honeypot_fyp.Orchestrator.Routes as Texts
use honeypot_fyp.Orchestrator.Routes.{new_asset_ids, unlock_route_updates}
use honeypot_fyp.Orchestrator.Steps.{
  Orchestrator, World, Progress, Task, unlock_one, configure_one, update_route, recycle_binding,
  nothing, task_of, target_runtime, stopped_events, now, stored, start_all,
  apply_asset_configuration, apply_unlocks,
}

abbrev pub when {ℓ} : {A : Type ℓ} → Bool → (A → A) → A → A
when true f a = f a
when false f a = a

abbrev pub is_none {ℓ} : {A : Type ℓ} → Option A → Bool
is_none none = true
is_none (some a) = false

module _ {F R : Type 0} where
  unfoldable pub override_task :
      Orchestrator F R
      → String
      → Option String
      → Option (Dict (Json F))
      → Progress F R
      → Outcome (Progress F R)
  unfolding apply_unlocks start_all
  override_task o binding_id none override p = ok p
  override_task o binding_id (some target) override p = do
    (p', updates) ← apply_unlocks o binding_id (target ∷ []) p
    let opened = new_asset_ids updates
    let update = Texts.routes binding_id target
    ok (
        if member target opened
        then start_all o (some target) override opened p'
        else start_all o (some target) override (opened ++ target ∷ [])
            (record p' { route_updates = p'.route_updates ++ update ∷ [] }))

  unfoldable pub configure_task_run :
      Orchestrator F R
      → String
      → String
      → String
      → Option String
      → Dict (Json F)
      → Progress F R
      → Outcome (Progress F R)
  unfolding Bindings.reveal_configurations target_runtime apply_asset_configuration override_task
  configure_task_run o binding_id asset_id configuration_id target configuration p = do
    let override = target_runtime configuration
    let attach = apply_asset_configuration o asset_id configuration_id configuration
    (updated, records) ←
        Bindings.reveal_configurations (now o p) ((asset_id, configuration_id ∷ []) ∷ []) binding_id
          p.world.records
    let p1 = record p {
      world = stored records p.world;
      binding = updated;
      route_updates = p.route_updates ++ Texts.configures binding_id asset_id configuration_id ∷ [];
    }
    p2 ← override_task o binding_id target override (when (is_none override) attach p1)
    ok (when (not (is_none override)) attach p2)

  unfoldable pub stop_with :
      Option (TemplateRuntime F R) → (ℕ → ℕ) → String → Progress F R → Progress F R
  unfolding stopped_events
  stop_with none times binding_id p = p
  stop_with (some runtime) times binding_id p =
      let (rs, containers) = runtime.stop_binding_assets binding_id p.world.containers in
      record p {
        world = record p.world { containers = containers; reads = p.world.reads + length rs };
        runtime_events = p.runtime_events ++ rs;
        monitoring_events = p.monitoring_events ++ stopped_events times p.world.reads rs;
      }

  unfoldable pub recycle_run : Orchestrator F R → String → Progress F R → Outcome (Progress F R)
  unfolding Bindings.recycle stop_with
  recycle_run o binding_id p = do
    let p' = stop_with o.runtime o.times binding_id p
    (updated, records) ← Bindings.recycle o.ttl (now o p') idle_mode binding_id p'.world.records
    ok (record p' {
      world = stored records p'.world;
      binding = updated;
      route_updates = p'.route_updates ++ Texts.recycled binding_id ∷ [];
    })

  -- one iteration of the loop of `apply`
  unfoldable pub run_task :
      Orchestrator F R → String → Task F → Progress F R → Outcome (Progress F R)
  unfolding apply_unlocks start_all configure_task_run recycle_run
  run_task o binding_id (unlock_one asset_id) p = do
    (p', updates) ← apply_unlocks o binding_id (asset_id ∷ []) p
    ok (start_all o none none (new_asset_ids updates) p')
  run_task o binding_id (configure_one asset_id configuration_id target configuration) p =
      configure_task_run o binding_id asset_id configuration_id target configuration p
  run_task o binding_id (update_route reason) p =
      ok (record p { route_updates = p.route_updates ++ Texts.route_update binding_id reason ∷ [] })
  run_task o binding_id recycle_binding p = recycle_run o binding_id p
  run_task o binding_id nothing p = ok p

  unfoldable pub run_actions :
      Orchestrator F R → String → List (ControllerAction F) → Progress F R → Outcome (Progress F R)
  unfolding run_task task_of
  run_actions o binding_id [] p = ok p
  run_actions o binding_id (action ∷ rest) p = do
    p' ← run_task o binding_id (task_of action) p
    run_actions o binding_id rest p'

  -- `_accessible_asset_ids` and `_failed_asset_ids`
  unfoldable pub accessible_asset_ids :
      Option (TemplateRuntime F R) → R → BindingRecord → List String
  accessible_asset_ids none containers binding = binding.unlocked_assets
  accessible_asset_ids (some runtime) containers binding =
      runtime.list_accessible_asset_ids binding.binding_id containers

  unfoldable pub failed_asset_ids : Option (TemplateRuntime F R) → R → BindingRecord → List String
  failed_asset_ids none containers binding = []
  failed_asset_ids (some runtime) containers binding =
      runtime.list_failed_asset_ids binding.binding_id containers

  unfoldable pub sync_request : Orchestrator F R → Progress F R → GatewaySyncRequest
  unfolding accessible_asset_ids failed_asset_ids
  sync_request o p = record {
    binding = p.binding;
    route_updates = p.route_updates;
    exposed_assets_override = some (accessible_asset_ids o.runtime p.world.containers p.binding);
    failed_assets_override = some (failed_asset_ids o.runtime p.world.containers p.binding);
  }

  abbrev pub begin : World R → BindingRecord → Progress F R
  begin w binding = record {
    world = w;
    binding = binding;
    route_updates = [];
    runtime_events = [];
    monitoring_events = [];
  }

  -- the end of `apply`: the sync, and the response
  unfoldable pub conclude :
      Orchestrator F R
      → List (ControllerAction F)
      → Progress F R
      → OrchestratorApplyResponse F × World R
  unfolding sync_request sync
  conclude o actions p = (
    record {
      binding = p.binding;
      applied_actions = actions;
      route_updates = p.route_updates;
      runtime_events = p.runtime_events;
      monitoring_events = p.monitoring_events;
    },
    record p.world {
      gateway = (sync (now o p) (sync_request o p) p.world.gateway).1;
      reads = suc p.world.reads;
    },
  )

  unfoldable pub apply :
      Orchestrator F R
      → OrchestratorApplyRequest F
      → World R
      → Outcome (OrchestratorApplyResponse F × World R)
  unfolding Bindings.get run_actions conclude
  apply o request w = do
    binding ← Bindings.get request.binding_id w.records
    p ← run_actions o request.binding_id request.actions (begin w binding)
    ok (conclude o request.actions p)
