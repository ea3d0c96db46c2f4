-- ===== src/Profiler/Summary.antt =====
-- `_confidence_fingerprint` and `_summarize_dimension` of services/profiler/domain.py: the confidence of
-- each tactic or technique, in which evidence of one fingerprint counts once.
use honeypot_fyp.Prelude.{
  String, Bool, List, [], ◌∷◌, ◌++◌, map, Option, none, some, ◌&&◌, ◌≡◌, ◌↔◌, true, false, arith,
  is_empty, if◌then◌else◌, Equality, ◌==◌, string_eq, bool_eq, list_eq, pair_eq, list_beq_iff,
}
use honeypot_fyp.Common.Dict.{Dict, get}
use honeypot_fyp.Common.Table.{find, store}
use honeypot_fyp.Common.Floats.{FloatOps, fmax, sum}
use honeypot_fyp.Common.Json.{Json, arr, items, Host, text_of}
use honeypot_fyp.Contracts.Evidence.{TechniqueEvidence}

-- A tuple of texts, for a list, or a text.
pub data Part : Type 0 where
  several : List String → Part
  single : String → Part

abbrev part_beq : Part → Part → Bool
part_beq (several xs) (several ys) = xs == ys
part_beq (single x) (single y) = x == y
part_beq _ _ = false

pub part_beq_iff : (a b : Part) → (part_beq a b ≡ true) ↔ (a ≡ b)
part_beq_iff (several xs) (several ys) =
    (λ h. ground (arith, list_beq_iff xs ys), λ h. ground (arith, list_beq_iff xs ys))
part_beq_iff (several xs) (single y) = (λ h. cc, λ h. cc)
part_beq_iff (single x) (several ys) = (λ h. cc, λ h. cc)
part_beq_iff (single x) (single y) =
    (λ h. ground (arith, string_eq.equals_iff x y), λ h. ground (arith, string_eq.equals_iff x y))

instance abbrev pub part_eq : Equality Part
part_eq = record { equals = part_beq; equals_iff = part_beq_iff }

-- The tuple of the parts, or ("reason", reason, success).
pub data Fingerprint : Type 0 where
  parts : List (String × Part) → Fingerprint
  by_reason : String → Bool → Fingerprint

abbrev fingerprint_beq : Fingerprint → Fingerprint → Bool
fingerprint_beq (parts xs) (parts ys) = xs == ys
fingerprint_beq (by_reason x b) (by_reason y c) = x == y && b == c
fingerprint_beq _ _ = false

pub fingerprint_beq_iff : (a b : Fingerprint) → (fingerprint_beq a b ≡ true) ↔ (a ≡ b)
fingerprint_beq_iff (parts xs) (parts ys) =
    (λ h. ground (arith, list_beq_iff xs ys), λ h. ground (arith, list_beq_iff xs ys))
fingerprint_beq_iff (parts xs) (by_reason y c) = (λ h. cc, λ h. cc)
fingerprint_beq_iff (by_reason x b) (parts ys) = (λ h. cc, λ h. cc)
fingerprint_beq_iff (by_reason x b) (by_reason y c) = (
  λ h. ground (arith, string_eq.equals_iff x y, bool_eq.equals_iff b c),
  λ h. ground (arith, string_eq.equals_iff x y, bool_eq.equals_iff b c),
)

instance abbrev pub fingerprint_eq : Equality Fingerprint
fingerprint_eq = record { equals = fingerprint_beq; equals_iff = fingerprint_beq_iff }

abbrev pub fingerprint_keys : List String
fingerprint_keys =
    "source" ∷ "asset_id" ∷ "event_type" ∷ "falco_rule" ∷ "proc_cmdline" ∷ "proc_name" ∷ "fd_name"
    ∷ "http_surface" ∷ "http_method" ∷ "http_path" ∷ "http_query_string" ∷ "http_user_agent"
    ∷ "http_rule_names" ∷ "http_indicators" ∷ "opencanary_service" ∷ "opencanary_logtype"
    ∷ "opencanary_command" ∷ "opencanary_commands" ∷ "opencanary_repo" ∷ "high_interaction_source"
    ∷ "high_interaction_service" ∷ "high_interaction_event_type" ∷ "username" ∷ "password_seen" ∷ []

module _ {F : Type 0} where
  unfoldable pub part_of : Host F → Json F → Part
  unfolding text_of
  part_of host (arr vs) = several (map (text_of host) (items vs))
  part_of host v = single (text_of host v)

  -- the loop over the keys
  unfoldable pub parts_of : Host F → List String → Dict (Json F) → List (String × Part)
  unfolding get part_of
  parts_of host [] source_ref = []
  parts_of host (key ∷ rest) source_ref = elim (get key source_ref) [
    | some value ↦ (key, part_of host value) ∷ parts_of host rest source_ref
    | none ↦ parts_of host rest source_ref
  ]

  unfoldable pub confidence_fingerprint : Host F → TechniqueEvidence F → Fingerprint
  unfolding parts_of
  confidence_fingerprint host e =
      let ps = parts_of host fingerprint_keys e.source_ref in
      if is_empty ps then by_reason e.reason e.success else parts ps

module _ {F : Type 0} ⦃ops : FloatOps F⦄ where
  abbrev pub or_zero : Option F → F
  or_zero o = elim o [ some w ↦ w | none ↦ ops.hundredths 0 ]

  -- `weights_by_fingerprint`
  unfoldable pub weigh :
      Host F → List (Fingerprint × F) → List (TechniqueEvidence F) → List (Fingerprint × F)
  unfolding confidence_fingerprint find store
  weigh host weights [] = weights
  weigh host weights (e ∷ rest) =
      let fingerprint = confidence_fingerprint host e in
      weigh host (store fingerprint (fmax (or_zero (find fingerprint weights)) e.weight) weights)
        rest

  -- `round(1 - math.exp(-score), 4)`
  unfoldable pub confidence : Host F → List (TechniqueEvidence F) → F
  unfolding weigh sum
  confidence host es =
      ops.round
        (ops.fsub (ops.hundredths 100) (ops.exp_neg (sum (map (λ p. p.1) (weigh host [] es))))) 4

  -- The evidence of each key, where `defaultdict(list)` makes an empty bucket; evidence without a
  -- key was filtered out.
  unfoldable pub grouped :
      (TechniqueEvidence F → Option String)
      → Dict (List (TechniqueEvidence F))
      → List (TechniqueEvidence F)
      → Dict (List (TechniqueEvidence F))
  unfolding find store
  grouped key_fn buckets [] = buckets
  grouped key_fn buckets (e ∷ rest) =
      grouped key_fn
        (elim (key_fn e) [
          | some key ↦
              store key (elim (find key buckets) [ some es ↦ es ++ e ∷ [] | none ↦ e ∷ [] ]) buckets
          | none ↦ buckets
        ])
        rest

  unfoldable pub confidences : Host F → Dict (List (TechniqueEvidence F)) → Dict F
  unfolding confidence
  confidences host [] = []
  confidences host ((key, es) ∷ rest) = (key, confidence host es) ∷ confidences host rest

  unfoldable pub summarize_dimension :
      Host F → (TechniqueEvidence F → Option String) → List (TechniqueEvidence F) → Dict F
  unfolding grouped confidences
  summarize_dimension host key_fn es = confidences host (grouped key_fn [] es)
