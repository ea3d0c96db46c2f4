-- ===== src/Orchestrator/Prewarm.antt =====
-- services/orchestrator/domain.py: `prewarm` of `OrchestratorService`, which starts hidden backends.
use honeypot_fyp.Prelude.{
  String, Bool, true, false, not, ◌&&◌, ◌||◌, List, [], ◌∷◌, map, Option, some, filter, member,
  is_empty, string_eq,
}
use honeypot_fyp.Common.Dict.{get}
use honeypot_fyp.Common.Json.{Json, bool, as_dict}
use honeypot_fyp.Contracts.Assets.{AssetDefinition}
use honeypot_fyp.Contracts.Bindings.{BindingRecord}
use honeypot_fyp.Binding.Service as Bindings
use honeypot_fyp.Binding.Service.{Outcome, ok, binding_not_found, ◌>>=◌}
use honeypot_fyp.Orchestrator.Runtime.{
  RuntimeStatus, running, stopped, failed, AssetRuntimeRecord, TemplateRuntime,
  OrchestratorPrewarmRequest, OrchestratorPrewarmResponse,
}
use honeypot_fyp.Orchestrator.Steps.{Orchestrator, World}

-- `_prewarm_assets`, for one asset
warm_standby : {F : Type 0} → Option (Json F) → Bool
warm_standby (some (bool true)) = true
warm_standby _ = false

module _ {F : Type 0} where
  unfoldable pub can_warm : List String → List String → AssetDefinition F → Bool
  unfolding warm_standby get
  can_warm requested unlocked asset =
      not (member asset.asset_id unlocked)
      && (is_empty requested || member asset.asset_id requested)
      && warm_standby (get "warm_standby" (as_dict (get "runtime" asset.default_settings)))

  unfoldable pub prewarm_assets :
      List (AssetDefinition F) → List String → List String → List (AssetDefinition F)
  unfolding can_warm
  prewarm_assets catalog requested unlocked = filter (can_warm requested unlocked) catalog

  has_status : RuntimeStatus → AssetRuntimeRecord F → Bool
  has_status wanted r = elim wanted [
    | running ↦ elim r.status [ running ↦ true | _ ↦ false ]
    | failed ↦ elim r.status [ failed ↦ true | _ ↦ false ]
    | stopped ↦ elim r.status [ stopped ↦ true | _ ↦ false ]
  ]

  ids_with : RuntimeStatus → List (AssetRuntimeRecord F) → List String
  unfolding has_status
  ids_with wanted rs =
      map (λ (r : AssetRuntimeRecord F). r.asset_id) (filter (has_status wanted) rs)

  warmed : String → List (AssetRuntimeRecord F) → OrchestratorPrewarmResponse F
  unfolding ids_with
  warmed binding_id rs = record {
    binding_id = binding_id;
    warmed_asset_ids = ids_with running rs;
    failed_asset_ids = ids_with failed rs;
    runtime_events = rs;
  }

module _ {F R : Type 0} where
  warm_all :
      TemplateRuntime F R → String → List (AssetDefinition F) → R → List (AssetRuntimeRecord F) × R
  warm_all runtime binding_id [] containers = ([], containers)
  warm_all runtime binding_id (asset ∷ rest) containers =
      let (r, after) = runtime.prewarm_asset binding_id asset containers in
      let (rs, last) = warm_all runtime binding_id rest after in (r ∷ rs, last)

  prewarm_with :
      Option (List (AssetDefinition F))
      → Option (TemplateRuntime F R)
      → List String
      → BindingRecord
      → R
      → OrchestratorPrewarmResponse F × R
  unfolding warm_all prewarm_assets warmed
  prewarm_with (some catalog) (some runtime) requested binding containers =
      let assets = prewarm_assets catalog requested binding.unlocked_assets in
      let (rs, after) = warm_all runtime binding.binding_id assets containers in
      (warmed binding.binding_id rs, after)
  prewarm_with _ _ requested binding containers = (warmed binding.binding_id [], containers)

  -- `prewarm`: only the containers change
  unfoldable pub prewarm :
      Orchestrator F R
      → OrchestratorPrewarmRequest
      → World R
      → Outcome (OrchestratorPrewarmResponse F × World R)
  unfolding Bindings.get prewarm_with
  prewarm o request w = do
    binding ← Bindings.get request.binding_id w.records
    let (response, containers) =
        prewarm_with o.catalog o.runtime request.asset_ids binding w.containers
    ok (response, record w { containers = containers })
