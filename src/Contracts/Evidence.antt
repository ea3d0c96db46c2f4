-- ===== src/Contracts/Evidence.antt =====
-- The events and the evidence of libs/contracts/models.py that the profiler works with, over the type
-- of the numbers. A `datetime` is the number of microseconds that `utc_aware` gives.
use honeypot_fyp.Prelude.{ℕ, String, List, Option, Bool}
use honeypot_fyp.Common.Dict.{Dict}
use honeypot_fyp.Common.Json.{Json}
use honeypot_fyp.Contracts.Assets.{ProfileSnapshot}

pub record FalcoEvent (F : Type 0) : Type 0 where
  pub ts : ℕ
  pub falco_rule : String
  pub priority : String
  pub output : String
  pub hostname : Option String
  pub tags : List String
  pub output_fields : Dict (Json F)

pub record TechniqueEvidence (F : Type 0) : Type 0 where
  pub evidence_id : String
  pub ts : ℕ
  pub attacker_key : String
  pub binding_id : String
  pub tech_id : Option String
  -- the tactic
  pub group : Option String
  pub weight : F
  pub success : Bool
  pub reason : String
  pub source_ref : Dict (Json F)

pub record EvidenceIngestRequest (F : Type 0) : Type 0 where
  pub attacker_key : String
  pub binding_id : String
  pub event : FalcoEvent F

pub record EvidenceIngestResponse (F : Type 0) : Type 0 where
  pub attacker_key : String
  pub binding_id : String
  pub evidences : List (TechniqueEvidence F)
  pub profile : ProfileSnapshot F
