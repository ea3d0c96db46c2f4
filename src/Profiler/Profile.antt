-- ===== src/Profiler/Profile.antt =====
-- `_rebuild_profile` of services/profiler/domain.py as far as it computes: the snapshot of the evidence
-- of an attacker.
use honeypot_fyp.Prelude.{
  ℕ, ◌+◌, ◌-◌, String, Bool, false, List, [], ◌∷◌, ◌++◌, Option, none, some, filter, drop, length,
  leb, ltb, if◌then◌else◌, ◌==◌, string_eq,
}
use honeypot_fyp.Common.Dict.{get}
use honeypot_fyp.Common.Floats.{FloatOps}
use honeypot_fyp.Common.Iterables.{dedupe_preserve}
use honeypot_fyp.Common.Json.{Json, text, arr, items, Host, text_items}
use honeypot_fyp.Common.Sorting.{sort_by, last}
use honeypot_fyp.Common.Text.{is_blank}
use honeypot_fyp.Contracts.Assets.{ProfileSnapshot}
use honeypot_fyp.Contracts.Evidence.{TechniqueEvidence}
use honeypot_fyp.Profiler.Summary.{summarize_dimension}

module _ {F : Type 0} where
  unfoldable pub earlier : TechniqueEvidence F → TechniqueEvidence F → Bool
  earlier a b = ltb a.ts b.ts

  -- `utc_aware(evidence.ts) >= latest_ts - window`, with the window on the other side
  unfoldable pub is_recent : ℕ → ℕ → TechniqueEvidence F → Bool
  is_recent window latest_ts e = leb latest_ts (e.ts + window)

  -- `[key(e) for e in evidences if key(e) is not None]`
  unfoldable pub present :
      (TechniqueEvidence F → Option String) → List (TechniqueEvidence F) → List String
  present key [] = []
  present key (e ∷ rest) = elim (key e) [ some k ↦ k ∷ present key rest | none ↦ present key rest ]

  -- the texts of a list, or a text that is not empty
  unfoldable pub texts_of : Option (Json F) → List String
  unfolding text_items
  texts_of (some (arr vs)) = text_items (items vs)
  texts_of (some (text s)) = if is_blank s then [] else s ∷ []
  texts_of _ = []

  -- `source_ref.get("source") == source`
  unfoldable pub is_from : String → TechniqueEvidence F → Bool
  unfolding get
  is_from source e = elim (get "source" e.source_ref) [ some (text s) ↦ s == source | _ ↦ false ]

  unfoldable pub values_of : String → List (TechniqueEvidence F) → List String
  unfolding texts_of get
  values_of key [] = []
  values_of key (e ∷ rest) = texts_of (get key e.source_ref) ++ values_of key rest

  -- `_public_http_values` and `_internal_http_values`, which differ in the source
  unfoldable pub http_values : String → String → List (TechniqueEvidence F) → List String
  unfolding is_from values_of dedupe_preserve
  http_values source key es = dedupe_preserve (values_of key (filter (is_from source) es))

  -- `_source_ref_values`
  unfoldable pub source_ref_values : String → List (TechniqueEvidence F) → List String
  unfolding values_of dedupe_preserve
  source_ref_values key es = dedupe_preserve (values_of key es)

  unfoldable pub evidence_ids : List (TechniqueEvidence F) → List String
  evidence_ids [] = []
  evidence_ids (e ∷ rest) = e.evidence_id ∷ evidence_ids rest

  -- `es[-5:]`
  abbrev pub last_five : List (TechniqueEvidence F) → List (TechniqueEvidence F)
  last_five es = drop (length es - 5) es

  unfoldable pub empty_snapshot : ℕ → String → ProfileSnapshot F
  empty_snapshot now attacker_key = record {
    attacker_key = attacker_key;
    conf_by_tactic = [];
    conf_by_technique = [];
    recent_tactics = [];
    recent_techniques = [];
    recent_evidence_ids = [];
    recent_public_http_paths = [];
    recent_public_http_rules = [];
    recent_public_http_indicators = [];
    recent_internal_http_paths = [];
    recent_internal_http_rules = [];
    recent_internal_http_indicators = [];
    recent_asset_ids = [];
    updated_at = now;
  }

module _ {F : Type 0} ⦃ops : FloatOps F⦄ (host : Host F) (window : ℕ) where
  -- the snapshot of the evidence that is recent at `latest_ts`, the time of the newest
  unfoldable pub snapshot_at : String → ℕ → List (TechniqueEvidence F) → ProfileSnapshot F
  unfolding present http_values source_ref_values evidence_ids summarize_dimension
  snapshot_at attacker_key latest_ts recent = record {
    attacker_key = attacker_key;
    conf_by_tactic = summarize_dimension host (λ e. e.group) recent;
    conf_by_technique = summarize_dimension host (λ e. e.tech_id) recent;
    recent_tactics = dedupe_preserve (present (λ e. e.group) recent);
    recent_techniques = dedupe_preserve (present (λ e. e.tech_id) recent);
    recent_evidence_ids = evidence_ids (last_five recent);
    recent_public_http_paths = http_values "public_http" "http_path" recent;
    recent_public_http_rules = http_values "public_http" "http_rule_names" recent;
    recent_public_http_indicators = http_values "public_http" "http_indicators" recent;
    recent_internal_http_paths = http_values "internal_http" "http_path" recent;
    recent_internal_http_rules = http_values "internal_http" "http_rule_names" recent;
    recent_internal_http_indicators = http_values "internal_http" "http_indicators" recent;
    recent_asset_ids = source_ref_values "asset_id" recent;
    updated_at = latest_ts;
  }

  -- `now` is the default of `updated_at`, for an attacker without evidence
  unfoldable pub rebuild : ℕ → String → List (TechniqueEvidence F) → ProfileSnapshot F
  unfolding earlier is_recent sort_by last snapshot_at empty_snapshot
  rebuild now attacker_key stored =
      let evidences = sort_by earlier stored in
      elim (last evidences) [
        | none ↦ empty_snapshot now attacker_key
        | some latest ↦
            snapshot_at attacker_key latest.ts (filter (is_recent window latest.ts) evidences)
      ]
