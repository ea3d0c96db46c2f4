-- ===== src/Controller/Records.antt =====
-- The answers of the controller: the records of libs/contracts/models.py that services/controller/domain.py
-- fills, and what its service is made of.
use honeypot_fyp.Prelude.{ℕ, String, Bool, List, Option, string_eq}
use honeypot_fyp.Common.Dict.{Dict}
use honeypot_fyp.Contracts.Assets.{AssetDefinition}
use honeypot_fyp.Contracts.Actions.{ActionType, ControllerAction}
use honeypot_fyp.Common.Json.{Host}
use honeypot_fyp.Controller.Settings.{Config}
use honeypot_fyp.Controller.Gates.{Rejection}
use honeypot_fyp.Controller.Upgrades.{UpgradeContext}
use honeypot_fyp.Controller.Scores.{CandidateScore}

-- `TechniquePriorRepository` of services/controller/repository.py, as the controller uses it.
pub record TechniquePriorRepository (F : Type 0) : Type 0 where
  pub recommend : List String → ℕ → F → Dict F
  pub degraded_reason : Option String

-- What a `ControllerService` is made of.
pub record Service (F : Type 0) : Type 0 where
  pub catalog : List (AssetDefinition F)
  pub prior : TechniquePriorRepository F
  pub config : Config F
  pub use_prior_support : Bool
  pub host : Host F

pub data DecisionType : Type 0 where
  bind_decision unlock_decision configure_decision noop_decision : DecisionType

pub record Ordering (F : Type 0) : Type 0 where
  pub structural_priority_rank : ℕ
  pub expected_technique_gain : F
  pub matched_dependency_marker_count : ℕ
  pub telemetry_value : F
  pub asset_id : String

-- `_candidate_reveal_option_summary`
pub record OptionSummary : Type 0 where
  pub action_type : ActionType
  pub asset_id : String
  pub configuration_id : Option String
  pub target_asset_id : Option String

pub record ConfigurationReveal : Type 0 where
  pub asset_id : String
  pub configuration_id : Option String
  pub configuration_kind : Option String
  pub target_asset_id : Option String

-- The `details` of an event, by the kind of the decision. The scores of the candidate, which the code
-- copies one by one, are the candidate itself.
pub data Details (F : Type 0) : Type 0 where
  revealed :
      (candidate : CandidateScore F) (prior_degraded : Option String) (prior_support_enabled : Bool)
      (observed_techniques eligible_assets : List String)
      (eligible_reveal_options : List OptionSummary)
      (eligible_configuration_variants : List OptionSummary) (rejected_assets : Dict Rejection)
      (ordering : Ordering F) (configuration_reveal : Option ConfigurationReveal)
      (same_port_upgrade : Option (UpgradeContext F))
      → Details F
  no_reveal :
      (prior_degraded : Option String) (prior_support_enabled : Bool) (no_reveal_reason : String)
      (rejected_assets : Dict Rejection)
      → Details F

pub record DecisionEvent (F : Type 0) : Type 0 where
  pub attacker_key : String
  pub binding_id : String
  pub decision_type : DecisionType
  pub reason : String
  pub trigger_evidence_ids : List String
  pub asset_added : Option String
  pub details : Details F

pub record ControllerTickResponse (F : Type 0) : Type 0 where
  pub binding_id : String
  pub actions : List (ControllerAction F)
  pub decision_events : List (DecisionEvent F)
  pub candidate_asset_ids : List String
