-- ===== src/Controller/Admitted.antt =====
-- Which reveals services/controller/domain.py may consider: the options of `_reveal_options`.
use mathlib.Core.List.{Memᴰ}
use honeypot_fyp.Prelude.{
  String, true, not, ◌&&◌, List, [], ◌∷◌, map, Option, none, some, member, is_empty, ◌==◌,
  string_eq, ◌≡◌, refl, inl, inr, All, All-append, Bool-cases, Option-cases,
}
use honeypot_fyp.Common.Dict.{Dict, get, get_or, of_pairs}
use honeypot_fyp.Common.Floats.{FloatOps}
use honeypot_fyp.Common.Json.{Json, string_or_none, Host}
use honeypot_fyp.Contracts.Assets.{AssetDefinition}
use honeypot_fyp.Contracts.Actions.{ControllerTickRequest}
use honeypot_fyp.Controller.Settings.{Config, covered_techniques}
use honeypot_fyp.Controller.Signals.{observed_signal_sets}
use honeypot_fyp.Controller.Gates.{Rejection, runtime_is_available, eligibility}
use honeypot_fyp.Controller.Variants.{
  configuration_variants, required_markers, matched_variant_markers, visible_on_active_path,
}
use honeypot_fyp.Controller.Options.{
  asset_reveal_option, by_id, variant_target, variant_option, variant_options, options_of_sources,
  configuration_reveal_options, unlock_options, reveal_options,
}
use honeypot_fyp.Controller.Eligible.{eligibility-none}
use honeypot_fyp.Controller.Admission.{
  IsTarget, no_target, target, IsFollowOn, unlocks, configures, IsAdmitted, Holds, Holds-some,
  not_and, Holds-append,
}

module _ {F : Type 0} ⦃ops : FloatOps F⦄ (host : Host F) (config : Config F)
    (assets : List (AssetDefinition F)) (request : ControllerTickRequest F)
    (planned : List String) where
  asset_reveal_option-IsAdmitted :
      (asset : AssetDefinition F)
      → Memᴰ asset assets
      → eligibility host config asset request planned ≡ none
      → Holds
          (IsAdmitted host config assets request planned)
          (asset_reveal_option host asset request assets planned)
  unfolding asset_reveal_option
  asset_reveal_option-IsAdmitted asset here passed =
      elim (Bool-cases (is_empty (covered_techniques asset))) [
        | inl nothing ↦ rw nothing tt
        | inr something ↦
            rw something
              (unlocks asset here ((eligibility-none host config asset request planned).0 passed))
      ]

  IsTarget-variant_target :
      (source : AssetDefinition F) (t : Option String)
      → Holds
          (λ found. IsTarget host assets source planned t)
          (variant_target host assets source planned t)
  unfolding variant_target
  IsTarget-variant_target source none = no_target
  IsTarget-variant_target source (some id) =
      elim (Option-cases (get id (of_pairs (map by_id assets)))) [
        | inl missing ↦ rw missing tt
        | inr (asset, found) ↦
            rw found (elim (Bool-cases (not (id == source.asset_id) && member id planned)) [
              | inl taken ↦ rw taken tt
              | inr free ↦ rw free (elim (Bool-cases (runtime_is_available host asset)) [
                | inl runs ↦ rw runs (target id asset found runs (not_and _ _ free))
                | inr stuck ↦ rw stuck tt
              ])
            ])
      ]

  variant_option-IsAdmitted :
      (source : AssetDefinition F) (variant : Dict (Json F))
      → Memᴰ source assets
      → member source.asset_id request.unlocked_asset_ids ≡ true
      → Memᴰ variant (configuration_variants source)
      → Holds
          (IsAdmitted host config assets request planned)
          (variant_option host assets request planned source variant)
  unfolding variant_option
  variant_option-IsAdmitted source variant here opened there =
      elim (Option-cases (string_or_none (get "configuration_id" variant))) [
        | inl unnamed ↦ rw unnamed tt
        | inr (id, named) ↦
            rw named
              (elim (Bool-cases
                (member id (get_or source.asset_id request.revealed_configurations []))) [
                  | inl revealed ↦ rw revealed tt
                  | inr unrevealed ↦
                      rw unrevealed
                        (elim (Bool-cases (
                          visible_on_active_path source.asset_id variant
                            request.profile.recent_asset_ids)) [
                              | inr hidden ↦ rw hidden tt
                              | inl visible ↦
                                  rw visible
                                    (elim (Bool-cases (
                                      not (is_empty (required_markers variant))
                                      && is_empty (
                                          matched_variant_markers variant
                                            (observed_signal_sets request)))) [
                                              | inl unmarked ↦ rw unmarked tt
                                              | inr marked ↦
                                                  rw marked
                                                    (elim (Option-cases (
                                                      variant_target host assets source planned (
                                                        string_or_none
                                                          (get "target_asset_id" variant)))) [
                                                            | inl untargeted ↦ rw untargeted tt
                                                            | inr (found, targeted) ↦
                                                              let follows : IsFollowOn request
                                                              source variant id =
                                                              record {
                                                              named = named;
                                                              source_open = opened;
                                                              unrevealed = unrevealed;
                                                              visible = visible;
                                                              marked = not_and _ _ marked;
                                                              } in
                                                              let t =
                                                              string_or_none
                                                              (get "target_asset_id" variant) in
                                                              rw targeted (
                                                              configures source variant id t here
                                                              there follows
                                                              (Holds-some
                                                              (IsTarget host assets source planned
                                                              t)
                                                              (variant_target host assets source
                                                              planned t)
                                                              found targeted
                                                              (IsTarget-variant_target source t)))
                                                          ])
                                            ])
                            ])
                ])
      ]

  variant_options-IsAdmitted :
      (source : AssetDefinition F) (variants : List (Dict (Json F)))
      → Memᴰ source assets
      → member source.asset_id request.unlocked_asset_ids ≡ true
      → ((v : Dict (Json F)) → Memᴰ v variants → Memᴰ v (configuration_variants source))
      → All
          (IsAdmitted host config assets request planned)
          (variant_options host assets request planned source variants)
  unfolding variant_options
  variant_options-IsAdmitted source [] here opened within = tt
  variant_options-IsAdmitted source (v ∷ rest) here opened within =
      Holds-append (IsAdmitted host config assets request planned) _ _
        (variant_option-IsAdmitted source v here opened (within v (Memᴰ.head refl)))
        (variant_options-IsAdmitted source rest here opened λ w m. within w (Memᴰ.tail m))

  options_of_sources-IsAdmitted :
      (sources : List (AssetDefinition F))
      → ((a : AssetDefinition F) → Memᴰ a sources → Memᴰ a assets)
      → All
          (IsAdmitted host config assets request planned)
          (options_of_sources host assets request planned sources)
  unfolding options_of_sources
  options_of_sources-IsAdmitted [] within = tt
  options_of_sources-IsAdmitted (a ∷ rest) within =
      let later = options_of_sources-IsAdmitted rest λ b m. within b (Memᴰ.tail m) in
      elim (Bool-cases (member a.asset_id request.unlocked_asset_ids)) [
        | inl opened ↦ rw opened (
            All-append (IsAdmitted host config assets request planned) _ _
              (variant_options-IsAdmitted a (configuration_variants a) (within a (Memᴰ.head refl))
                opened λ v m. m)
              later)
        | inr shut ↦ rw shut later
      ]

  unlock_options-IsAdmitted :
      (sources : List (AssetDefinition F)) (rejected : Dict Rejection)
      → ((a : AssetDefinition F) → Memᴰ a sources → Memᴰ a assets)
      → All
          (IsAdmitted host config assets request planned)
          (unlock_options host config assets request planned sources rejected).0
  unfolding unlock_options
  unlock_options-IsAdmitted [] rejected within = tt
  unlock_options-IsAdmitted (a ∷ rest) rejected within =
      elim (Option-cases (eligibility host config a request planned)) [
        | inl passed ↦
            rw (passed, All)
              (Holds-append (IsAdmitted host config assets request planned) _ _
                (asset_reveal_option-IsAdmitted a (within a (Memᴰ.head refl)) passed)
                (unlock_options-IsAdmitted rest rejected λ b m. within b (Memᴰ.tail m)))
        | inr (reason, stopped) ↦
            rw (stopped, All) (unlock_options-IsAdmitted rest _ λ b m. within b (Memᴰ.tail m))
      ]

  -- Every option that is scored is the unlock of a catalog asset that passes the gates, or a
  -- follow-on configuration of an open asset.
  pub reveal_options-IsAdmitted :
      (rejected : Dict Rejection)
      → All
          (IsAdmitted host config assets request planned)
          (reveal_options host config assets request planned rejected).0
  unfolding reveal_options configuration_reveal_options
  reveal_options-IsAdmitted rejected =
      All-append (IsAdmitted host config assets request planned) _ _
        (unlock_options-IsAdmitted assets rejected λ a m. m)
        (options_of_sources-IsAdmitted assets λ a m. m)
