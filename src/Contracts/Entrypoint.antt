-- ===== src/Contracts/Entrypoint.antt =====
-- The HTTP records of libs/contracts/models.py that the entrypoint works with. The surface is one of two
-- texts.
use honeypot_fyp.Prelude.{ℕ, String, List, Option, Bool}
use honeypot_fyp.Common.Dict.{Dict}
use honeypot_fyp.Contracts.Assets.{ProfileSnapshot}
use honeypot_fyp.Contracts.Bindings.{BindingRecord}

pub record EntrypointCaptureRequest : Type 0 where
  pub attacker_key : String
  pub method : String
  pub path : String
  pub query_string : String
  pub headers : Dict String
  pub body_preview : Option String
  pub body_truncated : Bool
  pub protocol : String
  pub surface : String
  pub asset_id : Option String

pub record EntrypointObservation : Type 0 where
  pub observation_id : String
  pub ts : ℕ
  pub attacker_key : String
  pub binding_id : String
  pub method : String
  pub path : String
  pub query_string : String
  pub headers : Dict String
  pub body_preview : Option String
  pub body_truncated : Bool
  pub user_agent : Option String
  pub status_code : ℕ
  pub matched_rules : List String
  pub tags : List String
  pub indicators : List String
  pub profiler_evidence_ids : List String
  pub surface : String
  pub asset_id : Option String

pub record EntrypointCaptureResponse (F : Type 0) : Type 0 where
  pub observation : EntrypointObservation
  pub binding : BindingRecord
  pub profile : ProfileSnapshot F
