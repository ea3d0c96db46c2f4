-- ===== src/Controller/Signals.antt =====
-- The signals of services/controller/domain.py: what a profile shows, and what an asset asks for.
use Prim.Native.String.{◌++◌ as concat}
use honeypot_fyp.Prelude.{
  String, Bool, true, false, not, ◌&&◌, ◌||◌, List, [], ◌∷◌, ◌++◌, Option, some, filter, any, all,
  is_empty, member, ◌==◌, string_eq, if◌then◌else◌, starts_with,
}
use honeypot_fyp.Common.Dict.{Dict, get, get_or, keys}
use honeypot_fyp.Common.Attack.{same_technique_family}
use honeypot_fyp.Common.Iterables.{dedupe_preserve}
use honeypot_fyp.Common.Json.{Json, arr, items, as_list, as_dict, text_items}
use honeypot_fyp.Contracts.Assets.{AssetDefinition, ProfileSnapshot}
use honeypot_fyp.Contracts.Actions.{ControllerTickRequest}
use honeypot_fyp.Controller.Settings.{optional_dependency_signals}

abbrev pub Signals : Type 0
Signals = Dict (List String)

abbrev pub any_techniques : String
any_techniques = "any_techniques"

-- `_signals_match`
unfoldable pub signals_match : List String → List String → String → Bool
unfolding same_technique_family
signals_match observed required key =
    if any (λ signal. member signal required) observed
    then true
    else if key == any_techniques
    then any (λ seen. any (λ wanted. same_technique_family seen wanted) required) observed
    else false

-- `_has_concrete_dependency_marker`
unfoldable pub has_concrete_marker : List String → Bool
has_concrete_marker markers =
    any (λ marker. not (starts_with marker "any_techniques:" || starts_with marker "any_tactics:"))
      markers

-- the markers of one key of a signal source
key_markers : String → List String → List String → List String
unfolding signals_match
key_markers key observed [] = []
key_markers key observed (value ∷ rest) =
    let more = key_markers key observed rest in
    if signals_match observed (value ∷ []) key then concat key (concat ":" value) ∷ more else more

abbrev pub scanner_techniques : List String
scanner_techniques =
    "T1190" ∷ "T1189" ∷ "T1046" ∷ "T1595" ∷ "T1595.001" ∷ "T1595.002" ∷ "T1595.003" ∷ []

module _ {F : Type 0} where
  -- `_observed_signal_sets`
  unfoldable pub observed_signal_sets : ControllerTickRequest F → Signals
  observed_signal_sets request =
      ("any_http_paths", request.profile.recent_public_http_paths)
      ∷ ("any_http_rules", request.profile.recent_public_http_rules)
      ∷ ("any_http_indicators", request.profile.recent_public_http_indicators)
      ∷ ("any_internal_http_paths", request.profile.recent_internal_http_paths)
      ∷ ("any_internal_http_rules", request.profile.recent_internal_http_rules)
      ∷ ("any_internal_http_indicators", request.profile.recent_internal_http_indicators)
      ∷ ("any_asset_ids", request.profile.recent_asset_ids)
      ∷ (any_techniques, request.profile.recent_techniques)
      ∷ ("any_tactics", request.profile.recent_tactics)
      ∷ []

  -- `_scanner_only_profile`
  unfoldable pub scanner_only_profile : ProfileSnapshot F → Bool
  scanner_only_profile profile =
      not (is_empty profile.recent_techniques)
      && all (λ technique. member technique scanner_techniques) profile.recent_techniques
      && is_empty profile.recent_public_http_indicators
      && is_empty profile.recent_public_http_rules
      && is_empty profile.recent_internal_http_indicators
      && is_empty profile.recent_internal_http_paths
      && is_empty profile.recent_internal_http_rules

  -- `_is_bootstrap_asset`
  unfoldable pub is_bootstrap_asset : AssetDefinition F → ControllerTickRequest F → Bool
  is_bootstrap_asset asset request =
      asset.asset_id == "internal-portal"
      && is_empty request.unlocked_asset_ids
      && (not (is_empty request.profile.recent_evidence_ids)
          || not (is_empty request.profile.recent_techniques)
          || not (is_empty request.profile.recent_tactics))

  -- `isinstance(unlock_signals.get(key), list) and unlock_signals[key]`
  unfoldable pub is_configured : Dict (Json F) → String → Bool
  unfolding get
  is_configured unlock_signals key = not (is_empty (as_list (get key unlock_signals)))

  -- `_matches_unlock_signals`, at the signals of the asset: those that are no object count as none
  signals_admit : Dict (Json F) → ControllerTickRequest F → Bool
  unfolding is_configured signals_match observed_signal_sets text_items get_or
  signals_admit unlock_signals request =
      let observed = observed_signal_sets request in
      let configured = filter (is_configured unlock_signals) (keys observed) in
      if is_empty unlock_signals
      then not (is_empty request.profile.recent_evidence_ids)
        || not (is_empty request.profile.recent_techniques)
      else if is_empty configured
      then true
      else any
          (λ key.
            signals_match (get_or key observed []) (text_items (as_list (get key unlock_signals)))
              key)
          configured

  unfoldable pub matches_unlock_signals : AssetDefinition F → ControllerTickRequest F → Bool
  unfolding signals_admit get
  matches_unlock_signals asset request =
      signals_admit (as_dict (get "unlock_signals" asset.default_settings)) request

  observed_markers : String → Option (List String) → Json F → List String
  unfolding key_markers text_items
  observed_markers key (some observed) (arr values) =
      key_markers key observed (text_items (items values))
  observed_markers key _ _ = []

  -- the markers of one source; a key that is not observed, or that holds no list, gives none
  source_markers : Signals → Dict (Json F) → List String
  unfolding observed_markers get
  source_markers observed [] = []
  source_markers observed ((key, values) ∷ rest) =
      observed_markers key (get key observed) values ++ source_markers observed rest

  -- `_matched_dependency_markers`
  unfoldable pub matched_dependency_markers :
      AssetDefinition F → ControllerTickRequest F → List String
  unfolding source_markers
  matched_dependency_markers asset request =
      let observed = observed_signal_sets request in
      dedupe_preserve (
        source_markers observed (as_dict (get "unlock_signals" asset.default_settings))
        ++ source_markers observed (optional_dependency_signals asset))
