-- ===== src/Controller/Tests.antt =====
-- Ticks of a small catalog: the theorems at a concrete request, and runs.
use mathlib.Core.List.{Memᴰ}
use Prim.Native.Nat.{◌≤◌}
use honeypot_fyp.Prelude.{
  ℕ, String, List, [], ◌∷◌, none, some, ◌≡◌, refl, true, false, length, All, string_eq, map, ◌↔◌,
  Distinct, member,
}
use honeypot_fyp.Common.Dict.{Dict, get, put, get_or, of_pairs}
use honeypot_fyp.Common.Floats.{FloatOps, micro_floats}
use honeypot_fyp.Common.Json.{Json, num, text, arr, obj, items_of, fields_of, Host}
use honeypot_fyp.Contracts.Assets.{
  AssetDefinition, ProfileSnapshot, internal_exposure, low_interaction,
}
use honeypot_fyp.Contracts.Actions.{unlock, ControllerAction, ControllerTickRequest}
use honeypot_fyp.Controller.Settings.{Config}
use honeypot_fyp.Controller.Gates.{eligibility}
use honeypot_fyp.Controller.Scores.{CandidateScore, exploit}
use honeypot_fyp.Controller.Upgrades.{continuation}
use honeypot_fyp.Controller.Gain.{GainTerm, exact}
use honeypot_fyp.Controller.Order.{select}
use honeypot_fyp.Controller.Records.{Service, DecisionEvent}
use honeypot_fyp.Controller.Decisions.{build_action, build_decision_event, thresholded_observed}
use honeypot_fyp.Controller.Tick.{tick}
use honeypot_fyp.Controller.Eligible.{IsEligible, eligibility-none}
use honeypot_fyp.Controller.Reveals.{IsDecided, main_candidates, main_rejected, tick-IsDecided}
use honeypot_fyp.Controller.Guarantees.{IsWithin, unlock_ids, tick_unlocks}
use honeypot_fyp.Controller.Opens.{AreSteps, newly_opened}
use honeypot_fyp.Controller.Best.{is_as_good, tick_best}
use honeypot_fyp.Controller.Explore.{IsGroundedReveal, tick_explore-IsGrounded}
use honeypot_fyp.Controller.Events.{AreExplained, tick-AreExplained}

abbrev asset : String → List String → Dict (Json ℕ) → Dict (Json ℕ) → AssetDefinition ℕ
asset id dependencies signals profile = record {
  asset_id = id;
  asset_name = id;
  exposure_type = internal_exposure;
  interaction_level = low_interaction;
  description = none;
  template_family = some "developer";
  protocols = "http" ∷ [];
  ports = 8080 ∷ [];
  source_refs = [];
  telemetry_source = none;
  default_settings =
      ("unlock_signals", obj (fields_of signals))
      ∷ ("selection_profile", obj (fields_of profile))
      ∷ [];
  covers_tactics = [];
  dependencies = dependencies;
}

abbrev texts : List String → Json ℕ
texts xs = arr (items_of (map text xs))

abbrev portal : AssetDefinition ℕ
portal = asset "internal-portal" [] [] (("covered_techniques", texts ("T1552.001" ∷ [])) ∷ [])

abbrev git : AssetDefinition ℕ
git =
    asset "git-internal" ("internal-portal" ∷ []) (("any_techniques", texts ("T1213" ∷ [])) ∷ [])
      (("covered_techniques", texts ("T1213" ∷ [])) ∷ ("telemetry_value", text "high") ∷ [])

abbrev finance : AssetDefinition ℕ
finance =
    asset "finance-share" [] (("any_internal_http_paths", texts ("/finance" ∷ [])) ∷ [])
      (("covered_techniques", texts ("T1083" ∷ [])) ∷ [])

abbrev host : Host ℕ
host = record { path_exists = λ p. true; str_of = λ v. "" }

abbrev config : Config ℕ
config = record {
  unlock_cap = 3;
  recommendation_top_k = 10;
  recommendation_support_threshold = 50000;
  observed_technique_threshold = 500000;
}

abbrev pub service : Service ℕ
service = record {
  catalog = portal ∷ git ∷ finance ∷ [];
  prior = record {
    recommend = λ observed k threshold. ("T1213", 500000) ∷ ("T1083", 100000) ∷ [];
    degraded_reason = none;
  };
  config = config;
  use_prior_support = true;
  host = host;
}

abbrev profile : ProfileSnapshot ℕ
profile = record {
  attacker_key = "198.51.100.10";
  conf_by_tactic = [];
  conf_by_technique = ("T1552.001", 800000) ∷ ("T1213", 600000) ∷ [];
  recent_tactics = [];
  recent_techniques = "T1213" ∷ "T1552.001" ∷ [];
  recent_evidence_ids = "ev-1" ∷ [];
  recent_public_http_paths = [];
  recent_public_http_rules = [];
  recent_public_http_indicators = [];
  recent_internal_http_paths = "/finance" ∷ [];
  recent_internal_http_rules = [];
  recent_internal_http_indicators = [];
  recent_asset_ids = [];
  updated_at = 100;
}

abbrev pub request : ControllerTickRequest ℕ
request = record {
  attacker_key = "198.51.100.10";
  binding_id = "b-1";
  profile = profile;
  assets = [];
  unlocked_asset_ids = "internal-portal" ∷ [];
  revealed_configurations = [];
}

abbrev scan : ControllerTickRequest ℕ
scan = record request {
  profile = record profile { recent_techniques = "T1190" ∷ []; recent_internal_http_paths = [] };
}

program : Unit {0}
unfolding honeypot_fyp.Controller.Settings.same_codes
    honeypot_fyp.Controller.Settings.selection_profile
    honeypot_fyp.Controller.Settings.techniques_in
    honeypot_fyp.Controller.Settings.covered_techniques
    honeypot_fyp.Controller.Settings.optional_dependency_signals
    honeypot_fyp.Controller.Settings.upgrade_candidates honeypot_fyp.Controller.Settings.truthy
    honeypot_fyp.Controller.Settings.asset_group honeypot_fyp.Controller.Settings.telemetry_value
    honeypot_fyp.Controller.Settings.implementation_status
    honeypot_fyp.Controller.Variants.configuration_variants
    honeypot_fyp.Controller.Variants.required_markers
    honeypot_fyp.Controller.Variants.matched_variant_markers
    honeypot_fyp.Controller.Variants.visible_on_active_path
    honeypot_fyp.Controller.Variants.variant_covered_techniques
    honeypot_fyp.Controller.Variants.variant_telemetry_value
    honeypot_fyp.Controller.Reveals.candidates_of honeypot_fyp.Controller.Gain.best_family_score
    honeypot_fyp.Controller.Gain.support_of honeypot_fyp.Controller.Gain.technique_gain
    honeypot_fyp.Controller.Gain.expected_technique_gain
    honeypot_fyp.Controller.Gain.gain_term_details honeypot_fyp.Controller.Gain.profile_match
    honeypot_fyp.Controller.Gain.prior_match honeypot_fyp.Controller.Gain.classify
    honeypot_fyp.Controller.Gain.technique_candidate_parts
    honeypot_fyp.Controller.Scores.requires_upgrade_context
    honeypot_fyp.Controller.Scores.is_distinct_explore_technique
    honeypot_fyp.Controller.Scores.explore_technique_scores
    honeypot_fyp.Controller.Scores.explore_admits honeypot_fyp.Controller.Scores.raw_scores
    honeypot_fyp.Controller.Scores.counts honeypot_fyp.Controller.Scores.technique_scores
    honeypot_fyp.Controller.Scores.technique_beats honeypot_fyp.Controller.Scores.best_loop
    honeypot_fyp.Controller.Scores.best_technique honeypot_fyp.Controller.Scores.candidate_score
    honeypot_fyp.Controller.Scores.score_selected honeypot_fyp.Controller.Scores.score_with
    honeypot_fyp.Controller.Scores.score_reveal_option
    honeypot_fyp.Controller.Options.variant_target
    honeypot_fyp.Controller.Options.asset_reveal_option
    honeypot_fyp.Controller.Options.variant_option honeypot_fyp.Controller.Options.variant_options
    honeypot_fyp.Controller.Options.options_of_sources
    honeypot_fyp.Controller.Options.configuration_reveal_options
    honeypot_fyp.Controller.Options.unlock_options honeypot_fyp.Controller.Options.reveal_options
    honeypot_fyp.Controller.Decisions.option_summary
    honeypot_fyp.Controller.Decisions.candidate_asset_ids
    honeypot_fyp.Controller.Decisions.prior_degraded honeypot_fyp.Controller.Decisions.noop_response
    honeypot_fyp.Controller.Decisions.ordering_details
    honeypot_fyp.Controller.Decisions.thresholded_observed
    honeypot_fyp.Controller.Decisions.build_action
    honeypot_fyp.Controller.Decisions.build_decision_event
    honeypot_fyp.Controller.Signals.signals_match
    honeypot_fyp.Controller.Signals.has_concrete_marker
    honeypot_fyp.Controller.Signals.observed_signal_sets
    honeypot_fyp.Controller.Signals.scanner_only_profile
    honeypot_fyp.Controller.Signals.is_bootstrap_asset honeypot_fyp.Controller.Signals.is_configured
    honeypot_fyp.Controller.Signals.matches_unlock_signals
    honeypot_fyp.Controller.Signals.matched_dependency_markers honeypot_fyp.Controller.Tick.plan
    honeypot_fyp.Controller.Tick.assets_of honeypot_fyp.Controller.Tick.response
    honeypot_fyp.Controller.Tick.scoring_of honeypot_fyp.Controller.Tick.scored
    honeypot_fyp.Controller.Tick.after_selection honeypot_fyp.Controller.Tick.iteration
    honeypot_fyp.Controller.Tick.iterate honeypot_fyp.Controller.Tick.tick
    honeypot_fyp.Controller.Gates.runtime_is_available honeypot_fyp.Controller.Gates.missing
    honeypot_fyp.Controller.Gates.is_ready honeypot_fyp.Controller.Gates.eligibility
    honeypot_fyp.Controller.Upgrades.upgrade_context
    honeypot_fyp.Controller.Order.structural_priority_rank
    honeypot_fyp.Controller.Order.exposed_asset_id honeypot_fyp.Controller.Order.comes_before
    honeypot_fyp.Controller.Order.min_loop honeypot_fyp.Controller.Order.select
    honeypot_fyp.Controller.Guarantees.unlock_ids honeypot_fyp.Common.Json.dict_items
    honeypot_fyp.Common.Json.text_items honeypot_fyp.Common.Json.string_or_none
    honeypot_fyp.Common.Dict.get honeypot_fyp.Common.Dict.put honeypot_fyp.Common.Dict.get_or
    honeypot_fyp.Common.Dict.of_pairs honeypot_fyp.Common.Attack.technique_family
    honeypot_fyp.Common.Attack.same_technique_family honeypot_fyp.Common.Text.is_space
    honeypot_fyp.Common.Text.strip honeypot_fyp.Common.Text.before honeypot_fyp.Common.Text.after
    honeypot_fyp.Common.Text.prefix honeypot_fyp.Common.Text.lower
    honeypot_fyp.Common.Floats.clamp_unit honeypot_fyp.Common.Floats.sum
    honeypot_fyp.Common.Iterables.dedupe_preserve honeypot_fyp.Common.Text.Order.codes_lt
    honeypot_fyp.Common.Text.Order.text_lt honeypot_fyp.Common.Text.Order.sorted
program = tt

reveals_two : unlock_ids (tick service request).actions ≡ "git-internal" ∷ "finance-share" ∷ []
unfolding program
reveals_two = refl

scan_is_quiet : unlock_ids (tick service scan).actions ≡ []
unfolding program
scan_is_quiet = refl

eligibility-none_example :
    (eligibility host config git request request.unlocked_asset_ids ≡ none)
    ↔ IsEligible host config git request request.unlocked_asset_ids
eligibility-none_example = eligibility-none host config git request request.unlocked_asset_ids

tick-IsDecided_example : IsDecided service request (tick service request)
tick-IsDecided_example = tick-IsDecided service request

tick_unlocks_example :
    let actions = (tick service request).actions in
    let before = request.unlocked_asset_ids in
    IsWithin config before (unlock_ids actions)
    × AreSteps config.unlock_cap before before actions
    × Distinct (newly_opened before actions)
    × All (λ id. member id before ≡ false) (newly_opened before actions)
tick_unlocks_example = tick_unlocks service request

tick_explore-IsGrounded_example :
    let r = tick service request in
    (a a' : ControllerAction ℕ) × (e e' : DecisionEvent ℕ) × (r.actions ≡ a ∷ a' ∷ [])
    × (r.decision_events ≡ e ∷ e' ∷ [])
    × IsGroundedReveal "b-1" (thresholded_observed config profile) a' e'.details
unfolding program
tick_explore-IsGrounded_example = tick_explore-IsGrounded service request refl

tick-AreExplained_example :
    AreExplained request (tick service request).actions (tick service request).decision_events
tick-AreExplained_example = tick-AreExplained service request

tick_best_example :
    let candidates = main_candidates service request in
    let r = tick service request in
    (c : CandidateScore ℕ) × (rest : List (ControllerAction ℕ)) × (events : List (DecisionEvent ℕ))
    × Memᴰ c candidates
    × All (λ d. is_as_good c d ≡ true) candidates
    × (r.actions ≡ build_action "b-1" c ∷ rest)
    × (r.decision_events
        ≡ build_decision_event service request c (main_rejected service request) candidates
          ∷ events)
    × (length rest ≤ 1)
unfolding program
tick_best_example = tick_best service request refl refl

abbrev git_candidate : CandidateScore ℕ
git_candidate = record {
  asset = git;
  strategy = exploit;
  candidate_type = continuation;
  selected_technique = "T1213";
  technique_signal_score = 600000;
  confidence_score = 600000;
  recommendation_support = 500000;
  expected_technique_gain = 200000;
  telemetry_value = 850000;
  matched_dependency_marker_count = 1;
  technique_match_type = exact;
  matched_profile_technique = some "T1213";
  matched_prior_technique = some "T1213";
  upgrade_context = none;
  matched_dependency_markers = "any_techniques:T1213" ∷ [];
  asset_group = "developer";
  covered_techniques = "T1213" ∷ [];
  gain_terms =
      record { technique = "T1213"; support = 500000; confidence = 600000; gain = 200000 } ∷ [];
  action_type = unlock;
  configuration_id = none;
  configuration_kind = none;
  target_asset_id = none;
  settings = [];
}
