-- ===== src/Controller/Upgrades.antt =====
-- Reveal options, and the upgrades of services/controller/domain.py that replace the backend of a
-- port: `_upgrade_context`. A `required_markers` that is no list counts as an empty one.
use honeypot_fyp.Prelude.{
  String, Bool, false, not, ◌&&◌, List, [], ◌∷◌, Option, none, some, filter, member, is_empty, ◌==◌,
  string_eq, if◌then◌else◌,
}
use honeypot_fyp.Common.Dict.{Dict, get, get_or}
use honeypot_fyp.Common.Iterables.{dedupe_preserve}
use honeypot_fyp.Common.Json.{Json, text, as_list, text_items}
use honeypot_fyp.Common.Text.Order.{sorted}
use honeypot_fyp.Contracts.Assets.{AssetDefinition}
use honeypot_fyp.Contracts.Actions.{ActionType}
use honeypot_fyp.Controller.Settings.{upgrade_candidates}
use honeypot_fyp.Controller.Signals.{has_concrete_marker}

pub data CandidateType : Type 0 where
  no_candidate continuation gate_only recommended weak_evidence bootstrap configuration :
      CandidateType

pub record UpgradeContext (F : Type 0) : Type 0 where
  pub previous_backend_asset : String
  pub upgraded_backend_asset : String
  pub public_port : Option (Json F)
  pub reason : Json F
  pub matched_markers : List String

-- `RevealOption`; an upgrade context that is `{}` is `none`.
pub record RevealOption (F : Type 0) : Type 0 where
  pub asset : AssetDefinition F
  pub action_type : ActionType
  pub covered_techniques : List String
  pub telemetry_value : F
  pub matched_dependency_markers : List String
  pub asset_group : String
  pub candidate_type_override : Option CandidateType
  pub upgrade_context : Option (UpgradeContext F)
  pub configuration_id : Option String
  pub configuration_kind : Option String
  pub target_asset_id : Option String
  pub settings : Dict (Json F)

module _ {F : Type 0} where
  -- `upgrade.get("asset_id") != candidate.asset_id`, the other way round
  names : String → Option (Json F) → Bool
  names asset_id (some (text s)) = s == asset_id
  names asset_id _ = false

  -- the body of the inner loop: the context that one upgrade of one open asset gives
  upgrade_from :
      AssetDefinition F
      → AssetDefinition F
      → List String
      → Dict (Json F)
      → Option (UpgradeContext F)
  unfolding names text_items get get_or sorted
  upgrade_from candidate source matched upgrade =
      let required = text_items (as_list (get "required_markers" upgrade)) in
      let present = sorted (dedupe_preserve (filter (λ marker. member marker matched) required)) in
      if not (names candidate.asset_id (get "asset_id" upgrade))
      then none
      else if not (is_empty required) && is_empty present
      then none
      else if not (is_empty present) && not (has_concrete_marker present)
      then none
      else some (record {
        previous_backend_asset = source.asset_id;
        upgraded_backend_asset = candidate.asset_id;
        public_port = get "public_port" upgrade;
        reason = get_or "reason" upgrade (text "explicit catalog upgrade candidate");
        matched_markers = if is_empty present then matched else present;
      })

  first_upgrade :
      AssetDefinition F
      → AssetDefinition F
      → List String
      → List (Dict (Json F))
      → Option (UpgradeContext F)
  unfolding upgrade_from
  first_upgrade candidate source matched [] = none
  first_upgrade candidate source matched (upgrade ∷ rest) =
      elim (upgrade_from candidate source matched upgrade) [
        | some context ↦ some context
        | none ↦ first_upgrade candidate source matched rest
      ]

  -- `_upgrade_context`
  unfoldable pub upgrade_context :
      AssetDefinition F
      → List (AssetDefinition F)
      → List String
      → List String
      → Option (UpgradeContext F)
  unfolding first_upgrade
  upgrade_context candidate [] unlocked matched = none
  upgrade_context candidate (source ∷ rest) unlocked matched =
      let found = first_upgrade candidate source matched (upgrade_candidates source) in
      let later = upgrade_context candidate rest unlocked matched in
      if member source.asset_id unlocked
      then elim found [ some context ↦ some context | none ↦ later ]
      else later
