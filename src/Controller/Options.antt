-- ===== src/Controller/Options.antt =====
-- The reveal options of services/controller/domain.py before they are scored: asset unlocks, and
-- follow-on configurations of assets that are open.
use honeypot_fyp.Prelude.{
  String, Bool, true, false, not, ◌&&◌, List, [], ◌∷◌, ◌++◌, map, Option, none, some, member,
  is_empty, ◌==◌, string_eq, if◌then◌else◌,
}
use honeypot_fyp.Common.Dict.{Dict, get, get_or, put, of_pairs}
use honeypot_fyp.Common.Floats.{FloatOps}
use honeypot_fyp.Common.Json.{Json, text, string_or_none, Host}
use honeypot_fyp.Contracts.Assets.{AssetDefinition}
use honeypot_fyp.Contracts.Actions.{unlock, configure, ControllerTickRequest}
use honeypot_fyp.Controller.Settings.{Config, covered_techniques, asset_group, telemetry_value}
use honeypot_fyp.Controller.Signals.{observed_signal_sets, matched_dependency_markers}
use honeypot_fyp.Controller.Gates.{Rejection, runtime_is_available, eligibility}
use honeypot_fyp.Controller.Upgrades.{RevealOption, configuration, UpgradeContext, upgrade_context}
use honeypot_fyp.Controller.Variants.{
  configuration_variants, required_markers, matched_variant_markers, visible_on_active_path,
  variant_covered_techniques, variant_telemetry_value,
}

-- a step of a `do` block that may `continue` to the next variant
infixl 5 ◌>>=◌ ◌>>◌
abbrev pub ◌>>=◌ : {A B : Type 0} → Option A → (A → Option B) → Option B
none >>= f = none
some a >>= f = f a

abbrev pub ◌>>◌ : {B : Type 0} → Option (Unit {0}) → Option B → Option B
m >> k = m >>= λ _. k

abbrev pub skip_if : Bool → Option (Unit {0})
skip_if true = none
skip_if false = some tt

-- `if option is not None: options.append(option)`, before the rest
abbrev pub append_option {ℓ} : {A : Type ℓ} → Option A → List A → List A
append_option none rest = rest
append_option (some option) rest = option ∷ rest

module _ {F : Type 0} where
  abbrev pub by_id : AssetDefinition F → String × AssetDefinition F
  by_id asset = (asset.asset_id, asset)

  -- The target of a variant: `some none` where it names none, `none` where the variant is skipped.
  unfoldable pub variant_target :
      Host F
      → List (AssetDefinition F)
      → AssetDefinition F
      → List String
      → Option String
      → Option (Option (AssetDefinition F))
  unfolding get of_pairs
  variant_target host assets source planned none = some none
  variant_target host assets source planned (some target_id) = do
    target ← get target_id (of_pairs (map by_id assets))
    skip_if (not (target_id == source.asset_id) && member target_id planned)
    skip_if (not (runtime_is_available host target))
    some (some target)

  abbrev target_or : Option (AssetDefinition F) → AssetDefinition F → AssetDefinition F
  target_or none source = source
  target_or (some target) source = target

  variant_upgrade :
      AssetDefinition F
      → Option (AssetDefinition F)
      → Dict (Json F)
      → List String
      → Option (UpgradeContext F)
  unfolding get get_or
  variant_upgrade source none variant markers = none
  variant_upgrade source (some target) variant markers = some (record {
    previous_backend_asset = source.asset_id;
    upgraded_backend_asset = target.asset_id;
    public_port = get "public_port" variant;
    reason = get_or "reason" variant (text "");
    matched_markers = markers;
  })

module _ {F : Type 0} ⦃ops : FloatOps F⦄ where
  -- `_asset_reveal_option`
  unfoldable pub asset_reveal_option :
      Host F
      → AssetDefinition F
      → ControllerTickRequest F
      → List (AssetDefinition F)
      → List String
      → Option (RevealOption F)
  asset_reveal_option host asset request all_assets unlocked =
      let covered = covered_techniques asset in
      let markers = matched_dependency_markers asset request in
      if is_empty covered
      then none
      else some (record {
        asset = asset;
        action_type = unlock;
        covered_techniques = covered;
        telemetry_value = telemetry_value asset;
        matched_dependency_markers = markers;
        asset_group = asset_group host asset;
        candidate_type_override = none;
        upgrade_context = upgrade_context asset all_assets unlocked markers;
        configuration_id = none;
        configuration_kind = none;
        target_asset_id = none;
        settings = [];
      })

  -- The body of the inner loop of `_configuration_reveal_options`, for one variant of one open asset.
  unfoldable pub variant_option :
      Host F
      → List (AssetDefinition F)
      → ControllerTickRequest F
      → List String
      → AssetDefinition F
      → Dict (Json F)
      → Option (RevealOption F)
  unfolding get get_or variant_upgrade
  variant_option host assets request planned source variant = do
    configuration_id ← string_or_none (get "configuration_id" variant)
    skip_if (member configuration_id (get_or source.asset_id request.revealed_configurations []))
    skip_if (not (visible_on_active_path source.asset_id variant request.profile.recent_asset_ids))
    let markers = matched_variant_markers variant (observed_signal_sets request)
    skip_if (not (is_empty (required_markers variant)) && is_empty markers)
    let target_id = string_or_none (get "target_asset_id" variant)
    target ← variant_target host assets source planned target_id
    some (record {
      asset = source;
      action_type = configure;
      covered_techniques = variant_covered_techniques variant (target_or target source);
      telemetry_value = variant_telemetry_value variant (target_or target source);
      matched_dependency_markers = markers;
      asset_group = asset_group host (target_or target source);
      candidate_type_override = some configuration;
      upgrade_context = variant_upgrade source target variant markers;
      configuration_id = some configuration_id;
      configuration_kind = string_or_none (get "kind" variant);
      target_asset_id = target_id;
      settings = variant;
    })

  -- the options of the variants of one open asset
  unfoldable pub variant_options :
      Host F
      → List (AssetDefinition F)
      → ControllerTickRequest F
      → List String
      → AssetDefinition F
      → List (Dict (Json F))
      → List (RevealOption F)
  variant_options host assets request planned source [] = []
  variant_options host assets request planned source (variant ∷ rest) =
      append_option (variant_option host assets request planned source variant)
        (variant_options host assets request planned source rest)

  -- the loop of `_configuration_reveal_options` over the assets
  unfoldable pub options_of_sources :
      Host F
      → List (AssetDefinition F)
      → ControllerTickRequest F
      → List String
      → List (AssetDefinition F)
      → List (RevealOption F)
  options_of_sources host assets request planned [] = []
  options_of_sources host assets request planned (source ∷ rest) =
      (if member source.asset_id request.unlocked_asset_ids
        then variant_options host assets request planned source (configuration_variants source)
        else [])
      ++ options_of_sources host assets request planned rest

  unfoldable pub configuration_reveal_options :
      Host F
      → List (AssetDefinition F)
      → ControllerTickRequest F
      → List String
      → List (RevealOption F)
  unfolding options_of_sources
  configuration_reveal_options host assets request planned =
      options_of_sources host assets request planned assets

  -- the loop of `_reveal_options` over the assets, with the reasons that it adds to `rejected`
  unfoldable pub unlock_options :
      Host F
      → Config F
      → List (AssetDefinition F)
      → ControllerTickRequest F
      → List String
      → List (AssetDefinition F)
      → Dict Rejection
      → List (RevealOption F) × Dict Rejection
  unlock_options host config assets request planned [] rejected = ([], rejected)
  unlock_options host config assets request planned (asset ∷ rest) rejected =
      elim (eligibility host config asset request planned) [
        | some reason ↦
            unlock_options host config assets request planned rest
              (put asset.asset_id reason rejected)
        | none ↦
            let (options, rejected') =
              unlock_options host config assets request planned rest rejected in
            (
              append_option (asset_reveal_option host asset request assets planned) options,
              rejected',
            )
      ]

  -- `_reveal_options`
  unfoldable pub reveal_options :
      Host F
      → Config F
      → List (AssetDefinition F)
      → ControllerTickRequest F
      → List String
      → Dict Rejection
      → List (RevealOption F) × Dict Rejection
  reveal_options host config assets request planned rejected =
      let (options, rejected') =
        unlock_options host config assets request planned assets rejected in
      (options ++ configuration_reveal_options host assets request planned, rejected')
