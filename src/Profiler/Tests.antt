-- ===== src/Profiler/Tests.antt =====
-- The profiler at the tags and the evidence of a few events.
use honeypot_fyp.Prelude.{
  ℕ, String, true, false, ◌&&◌, List, [], ◌∷◌, ◌++◌, map, Option, none, some, any, is_empty, leb,
  ltb, member, if◌then◌else◌, ◌==◌, string_eq, nat_eq, option_eq, pair_eq, ◌≡◌, refl,
}
use honeypot_fyp.Common.Dict.{get}
use honeypot_fyp.Common.Floats.{micro_floats}
use honeypot_fyp.Common.Iterables.{dedupe_preserve}
use honeypot_fyp.Common.Json.{text, Host}
use honeypot_fyp.Contracts.Evidence.{FalcoEvent, TechniqueEvidence}
use honeypot_fyp.Profiler.Tags.{
  AttackCatalog, AttackMapping, Digits, mappings_from_tags, is_technique_tag,
}
use honeypot_fyp.Profiler.Context.{
  techniques, tactics, technique_mapping, tactic_mapping, mappings_from_tags_lem,
}
use honeypot_fyp.Profiler.Summary.{summarize_dimension, confidence_fingerprint}
use honeypot_fyp.Profiler.Repeats.{summarize_dimension_repeat}
use honeypot_fyp.Profiler.Profile.{rebuild, texts_of}
use honeypot_fyp.Profiler.Shown.{Shows, has_tactic, has_technique, has_http}
use honeypot_fyp.Profiler.Window.{rebuild_window, rebuild_breadcrumbs}
use honeypot_fyp.Profiler.Service.{Profiler, list_by_attacker, get_profile}
use honeypot_fyp.Profiler.Coherent.{
  Call, ingest_all, evidences_for, answer, empty_state, get_profile-ingest_all,
}

abbrev ascii_digits : Digits
ascii_digits = record { is_decimal = λ c. leb b'0' c && leb c b'9' }

abbrev tactic_named : String → Option String
tactic_named s =
    if s == "initial_access"
    then some "Initial Access"
    else if s == "discovery"
    then some "Discovery"
    else none

abbrev catalog : AttackCatalog
catalog = record {
  tactic_for_technique = λ t. if t == "T1190" then some "Initial Access" else none;
  canonical_tactic_name = tactic_named;
}

abbrev event : FalcoEvent ℕ
event = record {
  ts = 1000;
  falco_rule = "HTTP honeypot request";
  priority = "low";
  output = "GET /.env";
  hostname = none;
  tags =
      "mitre_initial_access" ∷ "T1190" ∷ "mitre_discovery" ∷ "T1046" ∷ "T1190" ∷ "T1046" ∷ "web"
      ∷ [];
  output_fields = ("source", text "public_http") ∷ ("http_path", text "/.env") ∷ [];
}

abbrev mapping : String → String → AttackMapping
mapping tech_id tactic = technique_mapping event (tech_id, some tactic)

-- A technique has the tactic before it; a pair counts once.
tags_read :
    mappings_from_tags ascii_digits catalog event
    ≡ mapping "T1190" "Initial Access"
      ∷ mapping "T1046" "Discovery"
      ∷ mapping "T1190" "Discovery"
      ∷ []
unfolding mappings_from_tags
tags_read = refl

a_technique : is_technique_tag ascii_digits "T1552.001" ≡ true
unfolding is_technique_tag
a_technique = refl

no_technique : is_technique_tag ascii_digits "T155" ≡ false
unfolding is_technique_tag
no_technique = refl

mappings_from_tags_lem_example : mappings_from_tags ascii_digits catalog event ≡ (
    let found = dedupe_preserve (techniques ascii_digits catalog none event.tags) in
    if is_empty found
    then map (tactic_mapping event) (dedupe_preserve (tactics ascii_digits catalog event.tags))
    else map (technique_mapping event) found)
mappings_from_tags_lem_example = mappings_from_tags_lem event ascii_digits catalog

abbrev host : Host ℕ
host = record { path_exists = λ p. true; str_of = λ v. "" }

abbrev probe : TechniqueEvidence ℕ
probe = record {
  evidence_id = "ev-1";
  ts = 1000;
  attacker_key = "198.51.100.10";
  binding_id = "b-1";
  tech_id = some "T1190";
  group = some "Initial Access";
  weight = 500000;
  success = true;
  reason = "HTTP honeypot request: GET /.env";
  source_ref = ("source", text "public_http") ∷ ("http_path", text "/.env") ∷ [];
}

abbrev again : TechniqueEvidence ℕ
again = record probe { evidence_id = "ev-3"; ts = 3000 }

abbrev other : TechniqueEvidence ℕ
other = record probe {
  evidence_id = "ev-2";
  ts = 2000;
  source_ref = ("source", text "internal_http") ∷ ("http_path", text "/admin") ∷ [];
}

summarize_dimension_repeat_example :
    summarize_dimension host (λ e. e.tech_id) ((probe ∷ other ∷ []) ++ again ∷ [])
    ≡ summarize_dimension host (λ e. e.tech_id) (probe ∷ other ∷ [])
unfolding confidence_fingerprint
summarize_dimension_repeat_example =
    summarize_dimension_repeat host (λ e. e.tech_id) (probe ∷ other ∷ []) again refl

rebuild_window_example :
    let stored = again ∷ probe ∷ other ∷ [] in
    let p = rebuild host 1500 0 "198.51.100.10" stored in
    (any (λ e. e.ts == p.updated_at) stored ≡ true)
    × (any (λ e. ltb p.updated_at e.ts) stored ≡ false)
    × Shows p.recent_tactics has_tactic 1500 p.updated_at stored
    × Shows p.recent_techniques has_technique 1500 p.updated_at stored
rebuild_window_example =
    rebuild_window host 1500 0 "198.51.100.10" (again ∷ probe ∷ other ∷ []) refl

rebuild_breadcrumbs_example :
    let stored = again ∷ probe ∷ other ∷ [] in
    let p = rebuild host 1500 0 "198.51.100.10" stored in
    let Holds = λ (values : List String) (source key : String).
      Shows values (has_http source key) 1500 p.updated_at stored in
    Holds p.recent_public_http_paths "public_http" "http_path"
    × Holds p.recent_public_http_rules "public_http" "http_rule_names"
    × Holds p.recent_public_http_indicators "public_http" "http_indicators"
    × Holds p.recent_internal_http_paths "internal_http" "http_path"
    × Holds p.recent_internal_http_rules "internal_http" "http_rule_names"
    × Holds p.recent_internal_http_indicators "internal_http" "http_indicators"
    × Shows p.recent_asset_ids
        (λ v e. member v (texts_of (get "asset_id" e.source_ref)))
        1500
        p.updated_at
        stored
rebuild_breadcrumbs_example =
    rebuild_breadcrumbs host 1500 0 "198.51.100.10" (again ∷ probe ∷ other ∷ []) refl

abbrev profiler : Profiler ℕ
profiler = record {
  host = host;
  python = record { digits = ascii_digits; isoformat = λ t. "2026-01-01T00:00:00+00:00" };
  attack_catalog = catalog;
  chain_window = 1500;
}

abbrev call : Call profiler
call = record {
  now = 1000;
  ids = λ n. "ev-1";
  request = record { attacker_key = "198.51.100.10"; binding_id = "b-1"; event = event };
}

get_profile-ingest_all_example :
    (list_by_attacker "198.51.100.10" (ingest_all profiler (call ∷ []) (empty_state profiler))
      ≡ evidences_for profiler "198.51.100.10" (call ∷ []))
    × (get_profile "198.51.100.10" (ingest_all profiler (call ∷ []) (empty_state profiler))
        ≡ answer profiler 2000 "198.51.100.10" (evidences_for profiler "198.51.100.10" (call ∷ [])))
get_profile-ingest_all_example = get_profile-ingest_all profiler (call ∷ []) 2000 "198.51.100.10"
