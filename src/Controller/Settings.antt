-- ===== src/Controller/Settings.antt =====
-- `SelectionProfileView` of services/controller/domain.py, the configuration, and what the controller
-- reads from its host.
use honeypot_fyp.Prelude.{
  ℕ, String, Bool, true, false, not, List, [], ◌∷◌, Option, none, some, filter, is_empty, nat_beq,
  if◌then◌else◌,
}
use honeypot_fyp.Common.Dict.{Dict, get}
use honeypot_fyp.Common.Floats.{FloatOps, clamp_unit, feq}
use honeypot_fyp.Common.Json.{
  Json, null, bool, num, text, arr, obj, items, fields, as_list, as_dict, text_items, dict_items,
  Host, text_of,
}
use honeypot_fyp.Common.Text.{codes, is_blank, lower}
use honeypot_fyp.Contracts.Assets.{AssetDefinition}

-- The fields of `RuntimeConfig` that the controller reads.
pub record Config (F : Type 0) : Type 0 where
  pub unlock_cap : ℕ
  pub recommendation_top_k : ℕ
  pub recommendation_support_threshold : F
  pub observed_technique_threshold : F

-- Equality of code points, for the words that a lowered text is looked up among.
unfoldable pub same_codes : List ℕ → List ℕ → Bool
same_codes [] [] = true
same_codes (c ∷ cs) (d ∷ ds) = let rest = same_codes cs ds in if nat_beq c d then rest else false
same_codes _ _ = false

-- `self.template_family or "unknown"`
family_or_unknown : Option String → String
family_or_unknown none = "unknown"
family_or_unknown (some family) = if is_blank family then "unknown" else family

module _ {F : Type 0} where
  -- `SelectionProfileView.raw`: the selection profile where it is an object, else `{}`
  unfoldable pub selection_profile : AssetDefinition F → Dict (Json F)
  unfolding get
  selection_profile asset = as_dict (get "selection_profile" asset.default_settings)

  -- `[item for item in value if isinstance(item, str) and item]`
  unfoldable pub techniques_in : Option (Json F) → List String
  unfolding text_items
  techniques_in value = filter (λ s. not (is_blank s)) (text_items (as_list value))

  unfoldable pub covered_techniques : AssetDefinition F → List String
  unfolding techniques_in selection_profile
  covered_techniques asset = techniques_in (get "covered_techniques" (selection_profile asset))

  unfoldable pub optional_dependency_signals : AssetDefinition F → Dict (Json F)
  unfolding selection_profile
  optional_dependency_signals asset =
      as_dict (get "optional_dependency_signals" (selection_profile asset))

  unfoldable pub upgrade_candidates : AssetDefinition F → List (Dict (Json F))
  unfolding selection_profile dict_items
  upgrade_candidates asset =
      dict_items (as_list (get "upgrade_candidates" (selection_profile asset)))

module _ {F : Type 0} ⦃ops : FloatOps F⦄ where
  -- The truth value of a JSON value.
  unfoldable pub truthy : Json F → Bool
  truthy null = false
  truthy (bool b) = b
  truthy (num x) = not (feq x (ops.hundredths 0))
  truthy (text s) = not (is_blank s)
  truthy (arr vs) = not (is_empty (items vs))
  truthy (obj fs) = not (is_empty (fields fs))

  -- `str(value or fallback)`
  text_or : Host F → Option (Json F) → String → String
  unfolding text_of truthy
  text_or host none fallback = fallback
  text_or host (some v) fallback = if truthy v then text_of host v else fallback

  unfoldable pub asset_group : Host F → AssetDefinition F → String
  unfolding text_or family_or_unknown selection_profile
  asset_group host asset =
      text_or host (get "asset_group" (selection_profile asset))
        (family_or_unknown asset.template_family)

  telemetry_word : String → F
  unfolding same_codes lower
  telemetry_word s =
      if same_codes (lower s) (codes "low")
      then ops.hundredths 25
      else if same_codes (lower s) (codes "medium")
      then ops.hundredths 55
      else if same_codes (lower s) (codes "high")
      then ops.hundredths 85
      else ops.hundredths 50

  -- A Boolean is an `int` to `isinstance`.
  telemetry_of : Option (Json F) → F
  unfolding telemetry_word clamp_unit
  telemetry_of (some (num x)) = clamp_unit x
  telemetry_of (some (bool true)) = clamp_unit (ops.hundredths 100)
  telemetry_of (some (bool false)) = clamp_unit (ops.hundredths 0)
  telemetry_of (some (text s)) = telemetry_word s
  telemetry_of _ = ops.hundredths 50

  unfoldable pub telemetry_value : AssetDefinition F → F
  unfolding telemetry_of selection_profile
  telemetry_value asset = telemetry_of (get "telemetry_value" (selection_profile asset))

  unfoldable pub implementation_status : Host F → AssetDefinition F → String
  unfolding text_or selection_profile
  implementation_status host asset =
      text_or host (get "implementation_status" (selection_profile asset)) "ready"
