-- ===== src/Entrypoint/Rules.antt =====
-- `FilePublicHttpRuleMatcher` of services/entrypoint/rule_matcher.py: which rules of the JSON file match a request.
use Prim.Native.String.{◌++◌ as concat}
use honeypot_fyp.Prelude.{
  ℕ, suc, String, Bool, not, List, [], ◌∷◌, Option, none, some, is_empty, add_all, if◌then◌else◌,
  ◌==◌, string_eq,
}
use honeypot_fyp.Common.Dict.{Dict, get}
use honeypot_fyp.Common.Iterables.{dedupe_preserve}
use honeypot_fyp.Common.Json.{Json, null, text, arr, obj, Items, nil, cons, Fields, fields, items}
use honeypot_fyp.Common.Text.{is_blank, begins}
use honeypot_fyp.Entrypoint.Conditions.{matched_indicators}

-- `PublicHttpDetectionRule`
pub record Rule (F : Type 0) : Type 0 where
  pub name : String
  pub tags : List String
  pub match : Fields F
  pub evidence_label : Option String

-- `PublicHttpRuleMatch`
pub record RuleMatch : Type 0 where
  pub rule_name : String
  pub tags : List String
  pub indicators : List String
  pub evidence_label : Option String

-- A `ValueError`, by the field that it is about; a rule is named by its index or its name.
pub data RuleError : Type 0 where
  no_rules_list : RuleError
  not_an_object : ℕ → RuleError
  missing_name : ℕ → RuleError
  bad_tags : String → RuleError
  bad_match : String → RuleError
  bad_label : String → RuleError

pub data Parsed {ℓ} (A : Type ℓ) : Type ℓ where
  parsed : A → Parsed A
  value_error : RuleError → Parsed A

infixl 5 ◌>>=◌
abbrev pub ◌>>=◌ {ℓ κ} : {A : Type ℓ} {B : Type κ} → Parsed A → (A → Parsed B) → Parsed B
parsed a >>= f = f a
value_error e >>= f = value_error e

module _ {F : Type 0} where
  unfoldable pub name_of : ℕ → Option (Json F) → Parsed String
  name_of index (some (text s)) = if is_blank s then value_error (missing_name index) else parsed s
  name_of index _ = value_error (missing_name index)

  -- `all(isinstance(tag, str) for tag in tags)`
  unfoldable pub all_texts : Items F → Option (List String)
  all_texts nil = some []
  all_texts (cons (text s) vs) = elim (all_texts vs) [ some rest ↦ some (s ∷ rest) | none ↦ none ]
  all_texts (cons v vs) = none

  unfoldable pub tags_of : String → Option (Json F) → Parsed (List String)
  unfolding all_texts
  tags_of name (some (arr vs)) = elim (all_texts vs) [
    | some tags ↦ parsed tags
    | none ↦ value_error (bad_tags name)
  ]
  tags_of name _ = value_error (bad_tags name)

  unfoldable pub match_of : String → Option (Json F) → Parsed (Fields F)
  match_of name (some (obj fs)) = parsed fs
  match_of name _ = value_error (bad_match name)

  unfoldable pub label_of : String → Option (Json F) → Parsed (Option String)
  label_of name none = parsed none
  label_of name (some null) = parsed none
  label_of name (some (text s)) = parsed (some s)
  label_of name _ = value_error (bad_label name)

  -- The code tests the name, the tags, the condition and the label in this order.
  unfoldable pub parse_fields : ℕ → Dict (Json F) → Parsed (Rule F)
  unfolding name_of tags_of match_of label_of get
  parse_fields index item = do
    name ← name_of index (get "name" item)
    tags ← tags_of name (get "tags" item)
    condition ← match_of name (get "match" item)
    label ← label_of name (get "evidence_label" item)
    parsed (record { name = name; tags = tags; match = condition; evidence_label = label })

  -- `_parse_rule`
  unfoldable pub parse_rule : ℕ → Json F → Parsed (Rule F)
  unfolding parse_fields
  parse_rule index (obj fs) = parse_fields index (fields fs)
  parse_rule index _ = value_error (not_an_object index)

  unfoldable pub parse_rules : ℕ → List (Json F) → Parsed (List (Rule F))
  unfolding parse_rule
  parse_rules index [] = parsed []
  parse_rules index (item ∷ rest) = do
    rule ← parse_rule index item
    rules ← parse_rules (suc index) rest
    parsed (rule ∷ rules)

  -- `_load_rules`, of a payload that is an object
  unfoldable pub load_rules : Dict (Json F) → Parsed (List (Rule F))
  unfolding parse_rules get
  load_rules payload = elim (get "rules" payload) [
    | none ↦ parsed []
    | some (arr vs) ↦ parse_rules 0 (items vs)
    | some _ ↦ value_error no_rules_list
  ]

-- `_rule_applies_to_surface`
unfoldable pub rule_applies_to_surface : String → String → Bool
unfolding begins
rule_applies_to_surface rule_name surface =
    if surface == "internal"
    then begins "internal_http_" rule_name
    else not (begins "internal_http_" rule_name)

pub record HttpFields : Type 0 where
  pub method : String
  pub path : String
  pub query_string : String
  pub body_preview : Option String
  pub user_agent : Option String
  pub surface : String
  pub asset_id : Option String

abbrev pub or_empty : Option String → String
or_empty o = elim o [ some s ↦ s | none ↦ "" ]

-- `_normalize_fields`
unfoldable pub normalize_fields : (String → String) → HttpFields → Dict String
normalize_fields lower r =
    let joined = λ (a b : String). concat a (concat " " b) in
    let combined = joined r.method (
      joined r.path (
        joined r.query_string (
          joined (or_empty r.body_preview)
            (joined (or_empty r.user_agent) (joined r.surface (or_empty r.asset_id)))))) in
    ("method", lower r.method)
    ∷ ("path", lower r.path)
    ∷ ("query_string", lower r.query_string)
    ∷ ("body_preview", lower (or_empty r.body_preview))
    ∷ ("user_agent", lower (or_empty r.user_agent))
    ∷ ("surface", lower r.surface)
    ∷ ("asset_id", lower (or_empty r.asset_id))
    ∷ ("combined", lower combined)
    ∷ []

-- the two loops of `tags_for`
unfoldable pub tags_of_matches : List String → List RuleMatch → List String
tags_of_matches tags [] = tags
tags_of_matches tags (m ∷ rest) = tags_of_matches (add_all tags m.tags) rest

module _ {F : Type 0} (lower : String → String) (request : HttpFields) where
  unfoldable pub match_rule : Rule F → Option RuleMatch
  unfolding matched_indicators rule_applies_to_surface normalize_fields dedupe_preserve
  match_rule rule =
      let found = matched_indicators lower (normalize_fields lower request) rule.match in
      if not (rule_applies_to_surface rule.name request.surface)
      then none
      else if is_empty found
      then none
      else some (record {
        rule_name = rule.name;
        tags = rule.tags;
        indicators = dedupe_preserve found;
        evidence_label = rule.evidence_label;
      })

  -- the loop over the loaded rules
  unfoldable pub matches_for : List (Rule F) → List RuleMatch
  unfolding match_rule
  matches_for [] = []
  matches_for (rule ∷ rest) = elim (match_rule rule) [
    | some m ↦ m ∷ matches_for rest
    | none ↦ matches_for rest
  ]

  unfoldable pub tags_for : List (Rule F) → List String
  unfolding matches_for tags_of_matches
  tags_for rules = tags_of_matches [] (matches_for rules)
