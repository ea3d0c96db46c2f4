-- ===== src/Controller/Variants.antt =====
-- The configuration variants that the catalog declares for an asset, as services/controller/domain.py
-- reads them.
use honeypot_fyp.Prelude.{
  String, Bool, true, false, List, ◌∷◌, Option, none, some, filter, any, member, is_empty,
  string_eq, if◌then◌else◌,
}
use honeypot_fyp.Common.Dict.{Dict, get}
use honeypot_fyp.Common.Floats.{FloatOps, clamp_unit}
use honeypot_fyp.Common.Iterables.{dedupe_preserve}
use honeypot_fyp.Common.Json.{Json, bool, num, as_list, dict_items, text_items}
use honeypot_fyp.Common.Text.{before, after}
use honeypot_fyp.Contracts.Assets.{AssetDefinition}
use honeypot_fyp.Controller.Settings.{covered_techniques, techniques_in, telemetry_value}
use honeypot_fyp.Controller.Signals.{Signals}

has_colon : String → Bool
unfolding after
has_colon marker = elim (after b':' marker) [ some rest ↦ true | none ↦ false ]

shows : Signals → String → Bool
unfolding before after get
shows observed marker = elim (get (before b':' marker) observed) [
  | some values ↦ elim (after b':' marker) [ some value ↦ member value values | none ↦ false ]
  | none ↦ false
]

module _ {F : Type 0} where
  -- `_configuration_variants`
  unfoldable pub configuration_variants : AssetDefinition F → List (Dict (Json F))
  unfolding dict_items get
  configuration_variants asset =
      dict_items (as_list (get "configuration_variants" asset.default_settings))

  -- `_variant_required_markers`
  unfoldable pub required_markers : Dict (Json F) → List String
  unfolding has_colon text_items get
  required_markers variant =
      filter has_colon (text_items (as_list (get "required_markers" variant)))

  -- `_matched_variant_markers`
  unfoldable pub matched_variant_markers : Dict (Json F) → Signals → List String
  unfolding shows required_markers
  matched_variant_markers variant observed =
      dedupe_preserve (filter (shows observed) (required_markers variant))

  -- `_variant_visible_on_active_path`
  unfoldable pub visible_on_active_path : String → Dict (Json F) → List String → Bool
  unfolding text_items get
  visible_on_active_path source_id variant active =
      let allowed = source_id ∷ text_items (as_list (get "visible_from_asset_ids" variant)) in
      any (λ id. member id allowed) active

  -- `_variant_covered_techniques`
  unfoldable pub variant_covered_techniques : Dict (Json F) → AssetDefinition F → List String
  unfolding techniques_in covered_techniques get
  variant_covered_techniques variant fallback =
      let own = techniques_in (get "covered_techniques" variant) in
      if is_empty own then covered_techniques fallback else own

module _ {F : Type 0} ⦃ops : FloatOps F⦄ where
  variant_telemetry : Option (Json F) → F → F
  unfolding clamp_unit
  variant_telemetry (some (num x)) fallback = clamp_unit x
  variant_telemetry (some (bool true)) fallback = clamp_unit (ops.hundredths 100)
  variant_telemetry (some (bool false)) fallback = clamp_unit (ops.hundredths 0)
  variant_telemetry _ fallback = fallback

  -- `_variant_telemetry_value`
  unfoldable pub variant_telemetry_value : Dict (Json F) → AssetDefinition F → F
  unfolding variant_telemetry telemetry_value get
  variant_telemetry_value variant fallback =
      variant_telemetry (get "telemetry_value" variant) (telemetry_value fallback)
