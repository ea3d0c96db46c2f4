-- ===== src/Controller/Decisions.antt =====
-- The records that services/controller/domain.py answers with: `_build_action`,
-- `_build_decision_event` and `_noop_response`.
use Prim.Native.String.{◌++◌ as concat}
use honeypot_fyp.Prelude.{
  String, Bool, List, [], ◌∷◌, map, Option, none, some, filter, string_eq, if◌then◌else◌,
}
use honeypot_fyp.Common.Dict.{Dict, keys}
use honeypot_fyp.Common.Floats.{FloatOps}
use honeypot_fyp.Common.Iterables.{dedupe_preserve}
use honeypot_fyp.Common.Text.{non_blank}
use honeypot_fyp.Common.Text.Order.{sorted}
use honeypot_fyp.Contracts.Assets.{ProfileSnapshot}
use honeypot_fyp.Contracts.Actions.{
  ControllerAction, unlock, configure, noop, ControllerTickRequest,
}
use honeypot_fyp.Controller.Settings.{Config}
use honeypot_fyp.Controller.Gates.{Rejection}
use honeypot_fyp.Controller.Upgrades.{
  CandidateType, no_candidate, continuation, gate_only, recommended, weak_evidence, bootstrap,
  configuration,
}
use honeypot_fyp.Controller.Scores.{
  CandidateScore, Strategy, exploit, explore, is_configure, is_unlock,
}
use honeypot_fyp.Controller.Order.{structural_priority_rank, exposed_asset_id}
use honeypot_fyp.Controller.Records.{
  Service, Ordering, OptionSummary, ConfigurationReveal, Details, DecisionEvent,
  ControllerTickResponse, unlock_decision, configure_decision, noop_decision, revealed, no_reveal,
}

abbrev join : List String → String
join [] = ""
join (s ∷ rest) = concat s (join rest)

abbrev strategy_text : Strategy → String
strategy_text exploit = "exploit"
strategy_text explore = "explore"

abbrev candidate_type_text : CandidateType → String
candidate_type_text no_candidate = "none"
candidate_type_text continuation = "continuation"
candidate_type_text gate_only = "gate_only"
candidate_type_text recommended = "recommended"
candidate_type_text weak_evidence = "weak_evidence"
candidate_type_text bootstrap = "bootstrap"
candidate_type_text configuration = "configuration"

-- an optional text in an f-string
abbrev text_or_none : Option String → String
text_or_none none = "None"
text_or_none (some s) = s

abbrev is_configure_summary : OptionSummary → Bool
is_configure_summary s = is_configure s.action_type

module _ {F : Type 0} where
  unfoldable pub option_summary : CandidateScore F → OptionSummary
  option_summary c = record {
    action_type = c.action_type;
    asset_id = c.asset.asset_id;
    configuration_id = non_blank c.configuration_id;
    target_asset_id = non_blank c.target_asset_id;
  }

  configuration_reveal : CandidateScore F → Option ConfigurationReveal
  configuration_reveal c =
      if is_configure c.action_type
      then some (record {
        asset_id = c.asset.asset_id;
        configuration_id = c.configuration_id;
        configuration_kind = c.configuration_kind;
        target_asset_id = c.target_asset_id;
      })
      else none

  -- `_candidate_asset_ids`
  unfoldable pub candidate_asset_ids : List (CandidateScore F) → List String
  unfolding exposed_asset_id
  candidate_asset_ids candidates = dedupe_preserve (map exposed_asset_id candidates)

  unfoldable pub prior_degraded : Service F → Option String
  prior_degraded service = if service.use_prior_support then service.prior.degraded_reason else none

  -- `_noop_response`
  unfoldable pub noop_response :
      Service F
      → ControllerTickRequest F
      → String
      → List String
      → Dict Rejection
      → ControllerTickResponse F
  unfolding prior_degraded
  noop_response service request reason candidates rejected = record {
    binding_id = request.binding_id;
    actions =
        record {
          action_type = noop;
          binding_id = request.binding_id;
          asset_id = none;
          configuration_id = none;
          target_asset_id = none;
          configuration = [];
          reason = reason;
        }
        ∷ [];
    decision_events =
        record {
          attacker_key = request.attacker_key;
          binding_id = request.binding_id;
          decision_type = noop_decision;
          reason = reason;
          trigger_evidence_ids = request.profile.recent_evidence_ids;
          asset_added = none;
          details = no_reveal (prior_degraded service) service.use_prior_support reason rejected;
        }
        ∷ [];
    candidate_asset_ids = candidates;
  }

module _ {F : Type 0} ⦃ops : FloatOps F⦄ where
  unfoldable pub ordering_details : CandidateScore F → Ordering F
  unfolding structural_priority_rank exposed_asset_id
  ordering_details c = record {
    structural_priority_rank = structural_priority_rank c;
    expected_technique_gain = c.expected_technique_gain;
    matched_dependency_marker_count = c.matched_dependency_marker_count;
    telemetry_value = c.telemetry_value;
    asset_id = exposed_asset_id c;
  }

  -- `_thresholded_observed_techniques`
  unfoldable pub thresholded_observed : Config F → ProfileSnapshot F → List String
  thresholded_observed config profile =
      keys (filter (λ e. ops.fle config.observed_technique_threshold e.1) profile.conf_by_technique)

  configure_reason : CandidateScore F → String
  configure_reason c = join (
      strategy_text c.strategy
      ∷ " configured "
      ∷ c.asset.asset_id
      ∷ " with "
      ∷ text_or_none c.configuration_id
      ∷ " for technique "
      ∷ c.selected_technique
      ∷ [])

  unlock_reason : CandidateScore F → String
  unlock_reason c = join (
      strategy_text c.strategy
      ∷ " selected "
      ∷ c.asset.asset_id
      ∷ " for technique "
      ∷ c.selected_technique
      ∷ ": candidate_type="
      ∷ candidate_type_text c.candidate_type
      ∷ ", gain="
      ∷ ops.show c.expected_technique_gain
      ∷ ", telemetry="
      ∷ ops.show c.telemetry_value
      ∷ [])

  -- `_build_action`
  unfoldable pub build_action : String → CandidateScore F → ControllerAction F
  unfolding configure_reason unlock_reason
  build_action binding_id c =
      if is_configure c.action_type
      then record {
        action_type = configure;
        binding_id = binding_id;
        asset_id = some c.asset.asset_id;
        configuration_id = c.configuration_id;
        target_asset_id = c.target_asset_id;
        configuration = c.settings;
        reason = configure_reason c;
      }
      else record {
        action_type = unlock;
        binding_id = binding_id;
        asset_id = some c.asset.asset_id;
        configuration_id = none;
        target_asset_id = none;
        configuration = [];
        reason = unlock_reason c;
      }

  reveal_details :
      Service F
      → ControllerTickRequest F
      → CandidateScore F
      → Dict Rejection
      → List (CandidateScore F)
      → Details F
  unfolding option_summary configuration_reveal prior_degraded ordering_details thresholded_observed
      sorted
  reveal_details service request c rejected eligible =
      let summaries = map option_summary eligible in
      let unlocks = filter (λ x. is_unlock x.action_type) eligible in
      revealed c (prior_degraded service) service.use_prior_support
        (sorted (thresholded_observed service.config request.profile))
        (dedupe_preserve (map (λ (x : CandidateScore F). x.asset.asset_id) unlocks)) summaries
        (filter is_configure_summary summaries) rejected (ordering_details c)
        (configuration_reveal c) c.upgrade_context

  -- `_build_decision_event`
  unfoldable pub build_decision_event :
      Service F
      → ControllerTickRequest F
      → CandidateScore F
      → Dict Rejection
      → List (CandidateScore F)
      → DecisionEvent F
  unfolding reveal_details
  build_decision_event service request c rejected eligible = record {
    attacker_key = request.attacker_key;
    binding_id = request.binding_id;
    decision_type = if is_configure c.action_type then configure_decision else unlock_decision;
    reason = join (
        strategy_text c.strategy
        ∷ " selected on "
        ∷ exposed_asset_id c
        ∷ " via "
        ∷ c.selected_technique
        ∷ []);
    trigger_evidence_ids = request.profile.recent_evidence_ids;
    asset_added = some (exposed_asset_id c);
    details = reveal_details service request c rejected eligible;
  }
