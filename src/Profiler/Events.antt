-- ===== src/Profiler/Events.antt =====
-- `_map_event` of services/profiler/domain.py and what it calls: the evidence that one event gives.
use Prim.Native.String.{◌++◌ as concat}
use honeypot_fyp.Prelude.{
  ℕ, suc, String, Bool, not, ◌&&◌, List, [], ◌∷◌, ◌++◌, Option, none, some, if◌then◌else◌, ◌==◌,
  list_eq, nat_eq,
}
use honeypot_fyp.Common.Dict.{Dict, get}
use honeypot_fyp.Common.Floats.{FloatOps}
use honeypot_fyp.Common.Json.{Json, text}
use honeypot_fyp.Common.Text.{codes, non_blank, strip, lower, occurs}
use honeypot_fyp.Contracts.Evidence.{FalcoEvent, TechniqueEvidence}
use honeypot_fyp.Profiler.Tags.{
  AttackCatalog, AttackMapping, Digits, or_else, derive_attack_mappings,
}

-- What the profiler takes from Python: `\d`, and `event.ts.isoformat()`.
pub record Python : Type 0 where
  pub digits : Digits
  pub isoformat : ℕ → String

abbrev pub copied_keys : List String
copied_keys =
    "proc_cmdline" ∷ "proc_name" ∷ "fd_name" ∷ "source" ∷ "asset_id" ∷ "event_type" ∷ "signature"
    ∷ "category" ∷ "severity" ∷ "src_ip" ∷ "src_port" ∷ "dest_ip" ∷ "dest_port" ∷ "proto"
    ∷ "http_hostname" ∷ "http_surface" ∷ "http_url" ∷ "http_method" ∷ "http_path"
    ∷ "http_query_string" ∷ "http_user_agent" ∷ "http_rule_names" ∷ "http_indicators"
    ∷ "http_evidence_labels" ∷ "opencanary_service" ∷ "opencanary_logtype" ∷ "opencanary_command"
    ∷ "opencanary_commands" ∷ "opencanary_repo" ∷ "high_interaction_source"
    ∷ "high_interaction_service" ∷ "high_interaction_event_type" ∷ "high_interaction_logdata"
    ∷ "username" ∷ "password_seen" ∷ "node_id" ∷ []

module _ {F : Type 0} where
  -- the loop over the keys; they are different, so each write is at a new key
  unfoldable pub copied : List String → Dict (Json F) → Dict (Json F)
  unfolding get
  copied [] output_fields = []
  copied (key ∷ rest) output_fields = elim (get key output_fields) [
    | some value ↦ (key, value) ∷ copied rest output_fields
    | none ↦ copied rest output_fields
  ]

  unfoldable pub hostname_entry : Option String → Dict (Json F)
  hostname_entry hostname = elim (non_blank hostname) [
    | some name ↦ ("hostname", text name) ∷ []
    | none ↦ []
  ]

  -- `_build_source_ref`
  unfoldable pub build_source_ref : Python → FalcoEvent F → Dict (Json F)
  unfolding copied hostname_entry
  build_source_ref python event =
      ("falco_rule", text event.falco_rule)
        ∷ ("priority", text event.priority)
        ∷ ("output", text event.output)
        ∷ ("ts", text (python.isoformat event.ts))
        ∷ hostname_entry event.hostname
      ++ copied copied_keys event.output_fields

  -- `_infer_success`. A letter outside ASCII does not become one of these words when lowered.
  unfoldable pub infer_success : FalcoEvent F → Bool
  unfolding lower occurs
  infer_success event =
      let said = lower (concat event.output (concat " " event.falco_rule)) in
      not (occurs (codes "failed") said) && not (occurs (codes "denied") said)

module _ {F : Type 0} ⦃ops : FloatOps F⦄ where
  -- `_priority_to_weight`
  unfoldable pub priority_to_weight : String → F
  unfolding lower strip
  priority_to_weight priority =
      let label = lower (strip priority) in
      if label == codes "medium"
      then ops.hundredths 100
      else if label == codes "high"
      then ops.hundredths 200
      else ops.hundredths 50

  module _ (python : Python) (catalog : AttackCatalog) (attacker_key binding_id : String)
      (event : FalcoEvent F) where
    -- the tactic of a mapping, or the catalog's for its technique
    unfoldable pub group_of : AttackMapping → Option String
    group_of mapping = or_else mapping.tactic (elim (non_blank mapping.tech_id) [
      | some tech_id ↦ catalog.tactic_for_technique tech_id
      | none ↦ none
    ])

    unfoldable pub evidence_of : String → AttackMapping → TechniqueEvidence F
    unfolding group_of priority_to_weight infer_success build_source_ref
    evidence_of evidence_id mapping = record {
      evidence_id = evidence_id;
      ts = event.ts;
      attacker_key = attacker_key;
      binding_id = binding_id;
      tech_id = mapping.tech_id;
      group = group_of mapping;
      weight = priority_to_weight event.priority;
      success = infer_success event;
      reason = mapping.reason;
      source_ref = build_source_ref python event;
    }

    -- the comprehension: the n-th call of `uuid4` gives `ids n`
    unfoldable pub evidences_of : (ℕ → String) → ℕ → List AttackMapping → List (TechniqueEvidence F)
    unfolding evidence_of
    evidences_of ids n [] = []
    evidences_of ids n (mapping ∷ rest) =
        evidence_of (ids n) mapping ∷ evidences_of ids (suc n) rest

    unfoldable pub map_event : (ℕ → String) → List (TechniqueEvidence F)
    unfolding evidences_of derive_attack_mappings
    map_event ids = evidences_of ids 0 (derive_attack_mappings python.digits catalog event)
