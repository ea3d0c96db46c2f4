-- ===== src/Orchestrator/Runtime.antt =====
-- What services/orchestrator/domain.py works with: the runtime records and events of
-- libs/contracts/models.py, and the calls that it makes of its template runtime, as an interface. A
-- call takes the state of the containers and gives it back.
use honeypot_fyp.Prelude.{ℕ, String, List, Option}
use honeypot_fyp.Common.Dict.{Dict}
use honeypot_fyp.Common.Json.{Json}
use honeypot_fyp.Contracts.Assets.{AssetDefinition}
use honeypot_fyp.Contracts.Actions.{ControllerAction}
use honeypot_fyp.Contracts.Bindings.{BindingRecord}

pub data RuntimeStatus : Type 0 where
  running stopped failed : RuntimeStatus

pub record AssetRuntimeRecord (F : Type 0) : Type 0 where
  pub runtime_id : String
  pub binding_id : String
  pub asset_id : String
  pub asset_name : String
  pub template_family : Option String
  pub status : RuntimeStatus
  pub protocols : List String
  pub ports : List ℕ
  pub settings : Dict (Json F)
  pub source_refs : List String
  pub started_at : ℕ

pub record FalcoEvent (F : Type 0) : Type 0 where
  pub ts : ℕ
  pub falco_rule : String
  pub priority : String
  pub output : String
  pub tags : List String
  -- the record that `output_fields` spells out
  pub runtime_record : AssetRuntimeRecord F

pub record TemplateRuntime (F R : Type 0) : Type 0 where
  -- binding id, asset, attacker key, runtime override
  pub start_asset :
      String → AssetDefinition F → String → Option (Dict (Json F)) → R → AssetRuntimeRecord F × R
  pub prewarm_asset : String → AssetDefinition F → R → AssetRuntimeRecord F × R
  -- binding id, asset id, configuration id, configuration
  pub apply_configuration :
      String → String → String → Dict (Json F) → R → Option (AssetRuntimeRecord F) × R
  pub stop_binding_assets : String → R → List (AssetRuntimeRecord F) × R
  pub list_accessible_asset_ids : String → R → List String
  pub list_failed_asset_ids : String → R → List String
  pub monitoring_event_for : AssetRuntimeRecord F → FalcoEvent F

pub record OrchestratorApplyResponse (F : Type 0) : Type 0 where
  pub binding : BindingRecord
  pub applied_actions : List (ControllerAction F)
  pub route_updates : List String
  pub runtime_events : List (AssetRuntimeRecord F)
  pub monitoring_events : List (FalcoEvent F)

pub record OrchestratorPrewarmRequest : Type 0 where
  pub binding_id : String
  pub asset_ids : List String

pub record OrchestratorPrewarmResponse (F : Type 0) : Type 0 where
  pub binding_id : String
  pub warmed_asset_ids : List String
  pub failed_asset_ids : List String
  pub runtime_events : List (AssetRuntimeRecord F)
