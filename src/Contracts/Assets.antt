-- ===== src/Contracts/Assets.antt =====
-- The asset catalog's records and the attacker profile of libs/contracts/models.py, over the type of
-- the numbers.
use honeypot_fyp.Prelude.{ℕ, String, List, Option, Bool, true, false}
use honeypot_fyp.Common.Dict.{Dict}
use honeypot_fyp.Common.Json.{Json}

pub data ExposureType : Type 0 where
  public_exposure internal_exposure : ExposureType

abbrev pub is_internal : ExposureType → Bool
is_internal internal_exposure = true
is_internal public_exposure = false

pub data InteractionLevel : Type 0 where
  low_interaction medium_interaction high_interaction : InteractionLevel

pub record AssetDefinition (F : Type 0) : Type 0 where
  pub asset_id : String
  pub asset_name : String
  pub exposure_type : ExposureType
  pub interaction_level : InteractionLevel
  pub description : Option String
  pub template_family : Option String
  pub protocols : List String
  pub ports : List ℕ
  pub source_refs : List String
  pub telemetry_source : Option String
  pub default_settings : Dict (Json F)
  pub covers_tactics : List String
  pub dependencies : List String

pub record ProfileSnapshot (F : Type 0) : Type 0 where
  pub attacker_key : String
  pub conf_by_tactic : Dict F
  pub conf_by_technique : Dict F
  pub recent_tactics : List String
  pub recent_techniques : List String
  pub recent_evidence_ids : List String
  pub recent_public_http_paths : List String
  pub recent_public_http_rules : List String
  pub recent_public_http_indicators : List String
  pub recent_internal_http_paths : List String
  pub recent_internal_http_rules : List String
  pub recent_internal_http_indicators : List String
  pub recent_asset_ids : List String
  pub updated_at : ℕ
