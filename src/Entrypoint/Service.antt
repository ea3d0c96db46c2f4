-- ===== src/Entrypoint/Service.antt =====
-- `EntrypointService` of services/entrypoint/domain.py: one request is bound, redacted, matched, profiled and
-- stored. The rule matcher is the interface that the service has of it; Entrypoint.Rules is one.
use Prim.Native.String.{◌++◌ as concat}
use honeypot_fyp.Prelude.{
  ℕ, String, Bool, List, [], ◌∷◌, ◌++◌, map, Option, none, some, is_empty, add_all, if◌then◌else◌,
  ◌==◌, string_eq,
}
use honeypot_fyp.Common.Dict.{Dict, get}
use honeypot_fyp.Common.Floats.{FloatOps}
use honeypot_fyp.Common.Json.{Json, null, text, arr, items_of}
use honeypot_fyp.Common.Text.{codes, is_blank, non_blank}
use honeypot_fyp.Contracts.Assets.{ProfileSnapshot}
use honeypot_fyp.Contracts.Entrypoint.{
  EntrypointCaptureRequest, EntrypointObservation, EntrypointCaptureResponse,
}
use honeypot_fyp.Contracts.Evidence.{FalcoEvent, EvidenceIngestRequest}
use honeypot_fyp.Binding.Repository.{Records}
use honeypot_fyp.Binding.Service.{resolve}
use honeypot_fyp.Profiler.Profile.{empty_snapshot, evidence_ids}
use honeypot_fyp.Profiler.Service.{Profiler, State, ingest}
use honeypot_fyp.Entrypoint.Redact.{redact_headers, redact_body_preview}
use honeypot_fyp.Entrypoint.Rules.{RuleMatch, HttpFields, tags_of_matches}

-- Python's texts: `str.lower`, `str.upper`, `\w`, and a text made of code points.
pub record Texts : Type 0 where
  pub lower : String → String
  pub upper : String → String
  pub is_word : ℕ → Bool
  pub from_codes : List ℕ → String

pub record EntrypointService (F : Type 0) : Type 0 where
  pub texts : Texts
  pub session_ttl : ℕ
  pub profiler : Option (Profiler F)
  pub matches_for : HttpFields → List RuleMatch

-- The stores that a capture changes.
pub record World (F : Type 0) : Type 0 where
  pub bindings : Records
  pub profiles : State F
  pub observations : List EntrypointObservation

-- What a capture reads from the clock and from `uuid4`, in the services that it calls too.
pub record Calls : Type 0 where
  pub now : ℕ
  pub resolved_at : ℕ
  pub profiled_at : ℕ
  pub binding_id : String
  pub evidence_ids : ℕ → String
  pub observation_id : String

-- `_indicators_from_rule_matches`
unfoldable pub indicators_of_matches : List String → List RuleMatch → List String
indicators_of_matches found [] = found
indicators_of_matches found (m ∷ rest) = indicators_of_matches (add_all found m.indicators) rest

unfoldable pub labels_of : List RuleMatch → List String
labels_of [] = []
labels_of (m ∷ rest) = elim m.evidence_label [
  | some label ↦ label ∷ labels_of rest
  | none ↦ labels_of rest
]

unfoldable pub rule_names : List RuleMatch → List String
rule_names [] = []
rule_names (m ∷ rest) = m.rule_name ∷ rule_names rest

-- `", ".join(texts)`
unfoldable pub comma_joined : List String → String
comma_joined [] = ""
comma_joined (s ∷ []) = s
comma_joined (s ∷ t ∷ rest) = concat s (concat ", " (comma_joined (t ∷ rest)))

-- `_format_http_output`
unfoldable pub format_http_output : Texts → EntrypointCaptureRequest → List String → String
unfolding comma_joined
format_http_output texts r indicators =
    let target =
      if is_blank r.query_string then r.path else concat r.path (concat "?" r.query_string) in
    let asset : String = elim (non_blank r.asset_id) [
      | some id ↦ concat " asset=" id
      | none ↦ ""
    ] in
    let output = concat r.surface (
      concat " HTTP " (
        concat (texts.upper r.method)
          (concat " " (concat target (concat asset (concat " from " r.attacker_key)))))) in
    if is_empty indicators
    then output
    else concat output (concat "; indicators=" (comma_joined indicators))

-- `_source_for_surface` and `_falco_rule_for_surface`
unfoldable pub source_for_surface : String → String
source_for_surface surface = if surface == "internal" then "internal_http" else "public_http"

unfoldable pub falco_rule_for_surface : String → String
falco_rule_for_surface surface =
    if surface == "internal" then "Internal HTTP asset request" else "HTTP honeypot request"

-- the body that is stored
unfoldable pub safe_body : Texts → Option String → Option String
unfolding redact_body_preview
safe_body texts body =
    elim (redact_body_preview texts.is_word (elim body [ some s ↦ some (codes s) | none ↦ none ])) [
      | some cs ↦ some (texts.from_codes cs)
      | none ↦ none
    ]

module _ {F : Type 0} where
  abbrev pub text_or_null : Option String → Json F
  text_or_null o = elim o [ some s ↦ text s | none ↦ null ]

  abbrev pub texts_json : List String → Json F
  texts_json ss = arr (items_of (map text ss))

module _ {F : Type 0} ⦃ops : FloatOps F⦄ (service : EntrypointService F) (calls : Calls)
    (r : EntrypointCaptureRequest) where
  unfoldable pub safe_headers : Dict String
  unfolding redact_headers
  safe_headers = redact_headers service.texts.lower r.headers

  unfoldable pub rule_matches : List RuleMatch
  unfolding safe_headers safe_body get
  rule_matches = service.matches_for (record {
    method = r.method;
    path = r.path;
    query_string = r.query_string;
    body_preview = safe_body service.texts r.body_preview;
    user_agent = get "user-agent" safe_headers;
    surface = r.surface;
    asset_id = r.asset_id;
  })

  -- the event that the profiler gets
  unfoldable pub http_event : FalcoEvent F
  unfolding rule_matches safe_headers safe_body get tags_of_matches indicators_of_matches labels_of
      rule_names format_http_output source_for_surface falco_rule_for_surface
  http_event =
      let indicators = indicators_of_matches [] rule_matches in
      record {
        ts = calls.now;
        falco_rule = falco_rule_for_surface r.surface;
        priority = "low";
        output = format_http_output service.texts r indicators;
        hostname = none;
        tags = tags_of_matches [] rule_matches;
        output_fields =
            ("source", text (source_for_surface r.surface))
            ∷ ("http_surface", text r.surface)
            ∷ ("asset_id", text_or_null r.asset_id)
            ∷ ("http_method", text (service.texts.upper r.method))
            ∷ ("http_path", text r.path)
            ∷ ("http_query_string", text r.query_string)
            ∷ ("http_user_agent", text_or_null (get "user-agent" safe_headers))
            ∷ ("http_body_preview", text_or_null (safe_body service.texts r.body_preview))
            ∷ ("http_rule_names", texts_json (rule_names rule_matches))
            ∷ ("http_indicators", texts_json indicators)
            ∷ ("http_evidence_labels", texts_json (labels_of rule_matches))
            ∷ [];
      }

  unfoldable pub ingest_request : String → EvidenceIngestRequest F
  unfolding http_event
  ingest_request binding_id = record {
    attacker_key = r.attacker_key;
    binding_id = binding_id;
    event = http_event;
  }

  -- the profile, the ids of the new evidence, and the stores of the profiler
  unfoldable pub profiled : String → State F → ProfileSnapshot F × List String × State F
  unfolding ingest_request ingest rule_matches empty_snapshot evidence_ids
  profiled binding_id s = elim service.profiler [
    | none ↦ (empty_snapshot calls.profiled_at r.attacker_key, [], s)
    | some p ↦
        if is_empty rule_matches
        then (empty_snapshot calls.profiled_at r.attacker_key, [], s)
        else let (response, s') =
            ingest p calls.profiled_at calls.evidence_ids (ingest_request binding_id) s in
          (response.profile, evidence_ids response.evidences, s')
  ]

  unfoldable pub observed : String → List String → EntrypointObservation
  unfolding rule_matches safe_headers safe_body get tags_of_matches indicators_of_matches rule_names
  observed binding_id ids = record {
    observation_id = calls.observation_id;
    ts = calls.now;
    attacker_key = r.attacker_key;
    binding_id = binding_id;
    method = service.texts.upper r.method;
    path = r.path;
    query_string = r.query_string;
    headers = safe_headers;
    body_preview = safe_body service.texts r.body_preview;
    body_truncated = r.body_truncated;
    user_agent = get "user-agent" safe_headers;
    status_code = 404;
    matched_rules = rule_names rule_matches;
    tags = tags_of_matches [] rule_matches;
    indicators = indicators_of_matches [] rule_matches;
    profiler_evidence_ids = ids;
    surface = r.surface;
    asset_id = r.asset_id;
  }

  unfoldable pub capture_http_request : World F → EntrypointCaptureResponse F × World F
  unfolding resolve profiled observed
  capture_http_request w =
      let (binding, bindings) =
        resolve service.session_ttl calls.resolved_at calls.binding_id r.attacker_key w.bindings in
      let (profile, ids, profiles) = profiled binding.binding_id w.profiles in
      let observation = observed binding.binding_id ids in
      (
        record { observation = observation; binding = binding; profile = profile },
        record {
          bindings = bindings;
          profiles = profiles;
          observations = w.observations ++ observation ∷ [];
        },
      )
