-- ===== src/Controller/Scores.antt =====
-- `_score_reveal_option` of services/controller/domain.py: one option against the observed and the
-- recommended techniques.
use honeypot_fyp.Prelude.{
  ℕ, String, Bool, true, false, not, ◌&&◌, ◌||◌, List, [], ◌∷◌, map, Option, none, some, filter,
  any, is_empty, length, ◌==◌, string_eq, if◌then◌else◌, ltb,
}
use honeypot_fyp.Common.Dict.{Dict, of_pairs, keys}
use honeypot_fyp.Common.Floats.{FloatOps, flt, feq}
use honeypot_fyp.Common.Attack.{technique_family, same_technique_family}
use honeypot_fyp.Common.Iterables.{dedupe_preserve}
use honeypot_fyp.Common.Json.{Json}
use honeypot_fyp.Common.Text.{is_blank}
use honeypot_fyp.Common.Text.Order.{text_lt}
use honeypot_fyp.Contracts.Assets.{AssetDefinition}
use honeypot_fyp.Contracts.Actions.{ActionType, unlock, configure, ControllerTickRequest}
use honeypot_fyp.Controller.Signals.{has_concrete_marker, is_bootstrap_asset}
use honeypot_fyp.Controller.Upgrades.{
  CandidateType, no_candidate, bootstrap, RevealOption, UpgradeContext,
}
use honeypot_fyp.Controller.Gain.{
  Parts, MatchType, GainTerm, zero_score, one_score, technique_gain, expected_technique_gain,
  gain_term_details, technique_candidate_parts,
}

pub data Strategy : Type 0 where
  exploit explore : Strategy

pub record CandidateScore (F : Type 0) : Type 0 where
  pub asset : AssetDefinition F
  pub strategy : Strategy
  pub candidate_type : CandidateType
  pub selected_technique : String
  pub technique_signal_score : F
  pub confidence_score : F
  pub recommendation_support : F
  pub expected_technique_gain : F
  pub telemetry_value : F
  pub matched_dependency_marker_count : ℕ
  pub technique_match_type : MatchType
  pub matched_profile_technique : Option String
  pub matched_prior_technique : Option String
  pub upgrade_context : Option (UpgradeContext F)
  pub matched_dependency_markers : List String
  pub asset_group : String
  pub covered_techniques : List String
  pub gain_terms : List (GainTerm F)
  pub action_type : ActionType
  pub configuration_id : Option String
  pub configuration_kind : Option String
  pub target_asset_id : Option String
  pub settings : Dict (Json F)

abbrev pub is_unlock : ActionType → Bool
is_unlock unlock = true
is_unlock _ = false

abbrev pub is_configure : ActionType → Bool
is_configure configure = true
is_configure _ = false

abbrev pub is_some {ℓ} : {A : Type ℓ} → Option A → Bool
is_some none = false
is_some (some a) = true

abbrev pub type_or : Option CandidateType → CandidateType → CandidateType
type_or none own = own
type_or (some override) own = override

abbrev pub is_candidate : CandidateType → Bool
is_candidate no_candidate = false
is_candidate _ = true

module _ {F : Type 0} where
  -- `_requires_upgrade_context_for_explore`
  unfoldable pub requires_upgrade_context : RevealOption F → Bool
  requires_upgrade_context option =
      not (is_configure option.action_type)
      && (option.asset_group == "generic-capture" || option.asset_group == "payload-transfer-high")

  -- `_is_distinct_explore_technique`
  unfoldable pub is_distinct_explore_technique : CandidateScore F → String → Bool
  unfolding same_technique_family
  is_distinct_explore_technique main technique =
      not (
        not (is_blank main.selected_technique)
        && same_technique_family technique main.selected_technique)
      && not (any (λ covered. same_technique_family technique covered) main.covered_techniques)

  -- `_explore_technique_scores`
  unfoldable pub explore_technique_scores : Dict (Parts F) → CandidateScore F → Dict (Parts F)
  unfolding is_distinct_explore_technique
  explore_technique_scores scores main = filter (λ e. is_distinct_explore_technique main e.0) scores

  -- The tests of the `explore` strategy that an option must pass.
  unfoldable pub explore_admits : List String → RevealOption F → Bool
  unfolding requires_upgrade_context technique_family
  explore_admits observed option =
      not (ltb (length (dedupe_preserve (map technique_family observed))) 2)
      && (has_concrete_marker option.matched_dependency_markers || is_some option.upgrade_context)
      && not (requires_upgrade_context option && not (is_some option.upgrade_context))

  abbrev pub bootstrapped : F → Parts F → Parts F
  bootstrapped one parts = record parts { signal_score = one; candidate_type = bootstrap }

-- What the scoring of one tick reads besides the option.
pub record Scoring (F : Type 0) : Type 0 where
  pub use_prior : Bool
  pub request : ControllerTickRequest F
  pub observed : List String
  pub recommendations : Dict F

module _ {F : Type 0} ⦃ops : FloatOps F⦄ where
  parts_of : Scoring F → RevealOption F → String → String × Parts F
  unfolding technique_candidate_parts
  parts_of s option technique = (
    technique,
    technique_candidate_parts s.use_prior (has_concrete_marker option.matched_dependency_markers)
        technique s.request.profile.conf_by_technique s.observed s.recommendations,
  )

  -- the bootstrap asset is a candidate without any recommendation
  unfoldable pub raw_scores : Scoring F → RevealOption F → Dict (Parts F)
  unfolding parts_of of_pairs
  raw_scores s option =
      let scores = of_pairs (map (parts_of s option) option.covered_techniques) in
      if is_unlock option.action_type && is_bootstrap_asset option.asset s.request
      then map (λ e. (e.0, bootstrapped one_score e.1)) scores
      else scores

  unfoldable pub counts : String × Parts F → Bool
  counts (technique, parts) = is_candidate parts.candidate_type && flt zero_score parts.signal_score

  -- The techniques of an option that count under a strategy; `none` where explore turns it away.
  unfoldable pub technique_scores :
      Scoring F → RevealOption F → Strategy → Option (CandidateScore F) → Option (Dict (Parts F))
  unfolding raw_scores counts
  technique_scores s option exploit main = some (filter counts (raw_scores s option))
  technique_scores s option explore none = none
  technique_scores s option explore (some main) =
      if explore_admits s.observed option
      then some (explore_technique_scores (filter counts (raw_scores s option)) main)
      else none

  -- `a > b` on the keys (gain, signal, technique)
  unfoldable pub technique_beats : Scoring F → String × Parts F → String × Parts F → Bool
  unfolding technique_gain text_lt
  technique_beats s a b =
      let gain = λ (t : String).
        technique_gain s.use_prior t s.request.profile.conf_by_technique s.recommendations in
      if not (feq (gain a.0) (gain b.0))
      then flt (gain b.0) (gain a.0)
      else if not (feq a.1.signal_score b.1.signal_score)
      then flt b.1.signal_score a.1.signal_score
      else text_lt b.0 a.0

  unfoldable pub best_loop : Scoring F → String × Parts F → Dict (Parts F) → String × Parts F
  unfolding technique_beats
  best_loop s best [] = best
  best_loop s best (e ∷ rest) = best_loop s (if technique_beats s e best then e else best) rest

  -- `max(technique_scores.items(), key=…)`: the first of the greatest
  unfoldable pub best_technique : Scoring F → Dict (Parts F) → Option (String × Parts F)
  unfolding best_loop
  best_technique s [] = none
  best_technique s (e ∷ rest) = some (best_loop s e rest)

  -- the record that is returned, from the techniques that count and the one that is selected
  unfoldable pub candidate_score :
      Scoring F → RevealOption F → Strategy → Dict (Parts F) → String × Parts F → CandidateScore F
  unfolding expected_technique_gain gain_term_details
  candidate_score s option strategy scores (technique, parts) = record {
    asset = option.asset;
    strategy = strategy;
    candidate_type = type_or option.candidate_type_override parts.candidate_type;
    selected_technique = technique;
    technique_signal_score = ops.round parts.signal_score 4;
    confidence_score = ops.round parts.confidence 4;
    recommendation_support = ops.round parts.recommendation_support 4;
    expected_technique_gain =
        ops.round
          (expected_technique_gain s.use_prior (keys scores) s.request.profile.conf_by_technique
            s.recommendations)
          4;
    telemetry_value = ops.round option.telemetry_value 4;
    matched_dependency_marker_count = length option.matched_dependency_markers;
    technique_match_type = parts.match_type;
    matched_profile_technique = parts.matched_profile_technique;
    matched_prior_technique = parts.matched_prior_technique;
    upgrade_context = option.upgrade_context;
    matched_dependency_markers = option.matched_dependency_markers;
    asset_group = option.asset_group;
    covered_techniques = option.covered_techniques;
    gain_terms =
        gain_term_details s.use_prior (keys scores) s.request.profile.conf_by_technique
          s.recommendations;
    action_type = option.action_type;
    configuration_id = option.configuration_id;
    configuration_kind = option.configuration_kind;
    target_asset_id = option.target_asset_id;
    settings = option.settings;
  }

  unfoldable pub score_selected :
      Scoring F
      → RevealOption F
      → Strategy
      → Dict (Parts F)
      → Option (String × Parts F)
      → Option (CandidateScore F)
  unfolding candidate_score
  score_selected s option strategy scores none = none
  score_selected s option strategy scores (some best) =
      some (candidate_score s option strategy scores best)

  unfoldable pub score_with :
      Scoring F → RevealOption F → Strategy → Option (Dict (Parts F)) → Option (CandidateScore F)
  unfolding score_selected best_technique
  score_with s option strategy none = none
  score_with s option strategy (some scores) =
      score_selected s option strategy scores (best_technique s scores)

  -- `_score_reveal_option`
  unfoldable pub score_reveal_option :
      Scoring F → Strategy → Option (CandidateScore F) → RevealOption F → Option (CandidateScore F)
  unfolding score_with technique_scores
  score_reveal_option s strategy main option =
      if is_empty option.covered_techniques
      then none
      else score_with s option strategy (technique_scores s option strategy main)
