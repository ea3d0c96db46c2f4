-- ===== src/Contracts/Actions.antt =====
-- Controller requests, and the actions that it hands to the orchestrator, of
-- libs/contracts/models.py.
use honeypot_fyp.Prelude.{String, List, Option}
use honeypot_fyp.Common.Dict.{Dict}
use honeypot_fyp.Common.Json.{Json}
use honeypot_fyp.Contracts.Assets.{AssetDefinition, ProfileSnapshot}

pub data ActionType : Type 0 where
  bind unlock configure recycle route_update noop : ActionType

pub record ControllerAction (F : Type 0) : Type 0 where
  pub action_type : ActionType
  pub binding_id : String
  pub asset_id : Option String
  pub configuration_id : Option String
  pub target_asset_id : Option String
  pub configuration : Dict (Json F)
  pub reason : String

pub record ControllerTickRequest (F : Type 0) : Type 0 where
  pub attacker_key : String
  pub binding_id : String
  pub profile : ProfileSnapshot F
  pub assets : List (AssetDefinition F)
  pub unlocked_asset_ids : List String
  pub revealed_configurations : Dict (List String)

pub record OrchestratorApplyRequest (F : Type 0) : Type 0 where
  pub binding_id : String
  pub actions : List (ControllerAction F)
