-- ===== src/Entrypoint/Tests.antt =====
-- The entrypoint at one rule and one request with secrets.
use honeypot_fyp.Prelude.{
  ℕ, String, true, false, not, ◌&&◌, ◌||◌, [], ◌∷◌, ◌++◌, map, none, some, any, filter, is_empty,
  leb, member, All, Distinct, if◌then◌else◌, ◌==◌, string_eq, nat_eq, ◌≡◌, refl,
}
use honeypot_fyp.Common.Dict.{get}
use honeypot_fyp.Common.Floats.{micro_floats}
use honeypot_fyp.Common.Json.{text, arr, nil, cons, field, end, Host}
use honeypot_fyp.Common.Text.{codes}
use honeypot_fyp.Contracts.Entrypoint.{EntrypointCaptureRequest}
use honeypot_fyp.Profiler.Profile.{evidence_ids}
use honeypot_fyp.Profiler.Service.{Profiler, found, list_by_attacker, get_profile}
use honeypot_fyp.Entrypoint.Rules.{Rule, RuleMatch, HttpFields, matches_for, tags_for}
use honeypot_fyp.Entrypoint.Matched.{fires, answer, matches_for-fires}
use honeypot_fyp.Entrypoint.Redact.{secret_fields, in_value, redact, redact_body_preview, looking}
use honeypot_fyp.Entrypoint.Hidden.{hidden, redact-field}
use honeypot_fyp.Entrypoint.Service.{
  Texts, EntrypointService, World, Calls, rule_matches, capture_http_request,
}
use honeypot_fyp.Entrypoint.Capture.{
  new_evidence, IsOfBinding, capture_http_request-headers, capture_http_request-stores,
}

-- The only text here with a capital is a header's name.
abbrev texts : Texts
texts = record {
  lower = λ s. if s == "Cookie" then "cookie" else s;
  upper = λ s. s;
  is_word = λ c. leb b'a' c && leb c b'z' || c == b'_';
  from_codes = λ cs. "text";
}

abbrev git_rule : Rule ℕ
git_rule = record {
  name = "public_http_git_probe";
  tags = "mitre_discovery" ∷ "T1083" ∷ [];
  match =
      field "field" (text "path")
        (field "contains_any" (arr (cons (text ".git/") (cons (text ".env") nil))) end);
  evidence_label = some "git";
}

abbrev internal_rule : Rule ℕ
internal_rule = record git_rule { name = "internal_http_git_probe" }

abbrev fields : HttpFields
fields = record {
  method = "get";
  path = "/.git/config";
  query_string = "";
  body_preview = none;
  user_agent = none;
  surface = "public";
  asset_id = none;
}

-- The rule of the other surface does not match.
one_match :
    map
      (λ (m : RuleMatch). m.indicators)
      (matches_for (λ s. s) fields (internal_rule ∷ git_rule ∷ []))
    ≡ ("path:.git/" ∷ []) ∷ []
unfolding matches_for
one_match = refl

matches_for-fires_example :
    (matches_for (λ s. s) fields (internal_rule ∷ git_rule ∷ [])
      ≡ map
          (answer (λ s. s) fields)
          (filter (fires (λ s. s) fields) (internal_rule ∷ git_rule ∷ [])))
    × ((t : String)
        → member t (tags_for (λ s. s) fields (internal_rule ∷ git_rule ∷ []))
          ≡ any (λ r. fires (λ s. s) fields r && member t r.tags) (internal_rule ∷ git_rule ∷ []))
    × Distinct (tags_for (λ s. s) fields (internal_rule ∷ git_rule ∷ []))
matches_for-fires_example = matches_for-fires (λ s. s) fields (internal_rule ∷ git_rule ∷ [])

-- A name inside a word is none.
redacted :
    redact_body_preview texts.is_word (some (codes "user=a&pwd=b c&xtoken=d&token=&token=e"))
    ≡ some (codes "user=a&pwd=[redacted] c&xtoken=d&token=&token=[redacted]")
unfolding redact_body_preview
redacted = refl

redact-field_example :
    All
      (λ name.
        redact texts.is_word (looking false) (name ++ (b'=' ∷ b'x' ∷ (codes "yz" ++ codes "&a=b")))
        ≡ hidden texts.is_word b'x' (codes "yz") (codes "&a=b") name)
      secret_fields
unfolding in_value
redact-field_example = redact-field texts.is_word b'x' (codes "yz") (codes "&a=b") refl

abbrev host : Host ℕ
host = record { path_exists = λ p. true; str_of = λ v. "" }

abbrev profiler : Profiler ℕ
profiler = record {
  host = host;
  python = record {
    digits = record { is_decimal = λ c. leb b'0' c && leb c b'9' };
    isoformat = λ t. "2026-01-01T00:00:00+00:00";
  };
  attack_catalog = record { tactic_for_technique = λ t. none; canonical_tactic_name = λ t. none };
  chain_window = 1500;
}

abbrev service : EntrypointService ℕ
service = record {
  texts = texts;
  session_ttl = 600;
  profiler = some profiler;
  matches_for = λ f. matches_for (λ s. s) f (git_rule ∷ internal_rule ∷ []);
}

abbrev calls : Calls
calls = record {
  now = 1000;
  resolved_at = 1001;
  profiled_at = 1002;
  binding_id = "b-1";
  evidence_ids = λ n. "ev-1";
  observation_id = "obs-1";
}

abbrev request : EntrypointCaptureRequest
request = record {
  attacker_key = "198.51.100.10";
  method = "get";
  path = "/.git/config";
  query_string = "";
  headers = ("Cookie", "session=1") ∷ ("host", "a") ∷ [];
  body_preview = some "pwd=b";
  body_truncated = false;
  protocol = "http";
  surface = "public";
  asset_id = none;
}

abbrev nothing : World ℕ
nothing = record {
  bindings = [];
  profiles = record { records = []; profiles = [] };
  observations = [];
}

capture_http_request-headers_example :
    get "cookie" (capture_http_request service calls request nothing).0.observation.headers
    ≡ some "[redacted]"
capture_http_request-headers_example =
    capture_http_request-headers service calls request nothing "cookie"

capture_http_request-stores_example :
    let (response, w') = capture_http_request service calls request nothing in
    let id = response.binding.binding_id in
    (w'.observations ≡ response.observation ∷ [])
    × (response.observation.binding_id ≡ id)
    × (list_by_attacker "198.51.100.10" w'.profiles
        ≡ list_by_attacker "198.51.100.10" nothing.profiles
          ++ new_evidence service profiler calls request id)
    × All
        (IsOfBinding service profiler calls request id)
        (new_evidence service profiler calls request id)
    × (response.observation.profiler_evidence_ids
        ≡ evidence_ids (new_evidence service profiler calls request id))
    × (get_profile "198.51.100.10" w'.profiles ≡ (
        if not (is_empty (rule_matches service calls request))
        then found response.profile
        else get_profile "198.51.100.10" nothing.profiles))
capture_http_request-stores_example =
    capture_http_request-stores service profiler calls request refl nothing "198.51.100.10"
