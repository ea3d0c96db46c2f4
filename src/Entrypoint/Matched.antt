-- ===== src/Entrypoint/Matched.antt =====
-- Which rules of services/entrypoint/rule_matcher.py match a request, by what their conditions say.
use honeypot_fyp.Prelude.{
  String, Bool, ◌&&◌, ◌||◌, List, [], ◌∷◌, map, Option, none, some, is_empty, any, filter, member,
  Distinct, add_all, member-add_all, add_all-Distinct, if◌then◌else◌, ◌==◌, string_eq, bool_eq, ◌≡◌,
  refl, sym, ap, ◌∙◌, arith, Bool-cases, inl, inr,
}
use honeypot_fyp.Common.Iterables.{dedupe_preserve}
use honeypot_fyp.Common.Text.{begins}
use honeypot_fyp.Common.Json.{obj}
use honeypot_fyp.Entrypoint.Conditions.{matched_indicators}
use honeypot_fyp.Entrypoint.Holds.{holds}
use honeypot_fyp.Entrypoint.Truth.{matched_indicators-holds}
use honeypot_fyp.Entrypoint.Rules.{
  Rule, RuleMatch, HttpFields, rule_applies_to_surface, normalize_fields, match_rule, matches_for,
  tags_of_matches, tags_for,
}

tags_of_matches-Distinct :
    (tags : List String) (ms : List RuleMatch) → Distinct tags → Distinct (tags_of_matches tags ms)
unfolding tags_of_matches
tags_of_matches-Distinct tags [] d = d
tags_of_matches-Distinct tags (m ∷ ms) d =
    tags_of_matches-Distinct (add_all tags m.tags) ms (add_all-Distinct tags m.tags d)

module _ {F : Type 0} (lower : String → String) (request : HttpFields) where
  -- A rule of the internal surface has a name that begins so; the others are of the public one.
  abbrev pub is_of_surface : Rule F → Bool
  is_of_surface rule = (request.surface == "internal") == begins "internal_http_" rule.name

  -- The rule is of the surface of the request, and its condition holds.
  abbrev pub fires : Rule F → Bool
  fires rule = is_of_surface rule && holds lower (normalize_fields lower request) (obj rule.match)

  rule_applies_to_surface-is_of_surface :
      (rule : Rule F) → rule_applies_to_surface rule.name request.surface ≡ is_of_surface rule
  unfolding rule_applies_to_surface
  rule_applies_to_surface-is_of_surface rule = ground arith

  abbrev pub answer : Rule F → RuleMatch
  answer rule = record {
    rule_name = rule.name;
    tags = rule.tags;
    indicators =
        dedupe_preserve (matched_indicators lower (normalize_fields lower request) rule.match);
    evidence_label = rule.evidence_label;
  }

  match_rule-fires :
      (rule : Rule F)
      → match_rule lower request rule ≡ (if fires rule then some (answer rule) else none)
  unfolding match_rule
  match_rule-fires rule =
      let found = matched_indicators lower (normalize_fields lower request) rule.match in
      let says = matched_indicators-holds lower (normalize_fields lower request) rule.match in
      rw (sym says, rule_applies_to_surface-is_of_surface rule)
        (elim (Bool-cases (is_of_surface rule)) [
          | inr other ↦ rw other refl
          | inl applies ↦ elim (Bool-cases (is_empty found)) [
            | inl empty ↦ rw (applies, empty) refl
            | inr full ↦ rw (applies, full) refl
          ]
        ])

  matches_for-filter :
      (rules : List (Rule F)) → matches_for lower request rules ≡ map answer (filter fires rules)
  unfolding matches_for
  matches_for-filter [] = refl
  matches_for-filter (rule ∷ rest) =
      ap
        (λ (o : Option RuleMatch). elim o [
          | some m ↦ m ∷ matches_for lower request rest
          | none ↦ matches_for lower request rest
        ])
        (match_rule-fires rule)
      ∙ elim (Bool-cases (fires rule)) [
        | inl fired ↦ rw fired (ap (◌∷◌ (answer rule)) (matches_for-filter rest))
        | inr silent ↦ rw silent (matches_for-filter rest)
      ]

  member-tags_of_matches :
      (t : String) (tags : List String) (rules : List (Rule F))
      → member t (tags_of_matches tags (map answer (filter fires rules)))
        ≡ (member t tags || any (λ r. fires r && member t r.tags) rules)
  unfolding tags_of_matches
  member-tags_of_matches t tags [] = ground arith
  member-tags_of_matches t tags (rule ∷ rest) = elim (Bool-cases (fires rule)) [
    | inl fired ↦ rw fired (
        member-tags_of_matches t (add_all tags rule.tags) rest
        ∙ ground (arith, member-add_all t tags rule.tags))
    | inr silent ↦ rw silent (member-tags_of_matches t tags rest)
  ]

  -- A rule matches a request exactly if it is of the surface of the request and its condition
  -- holds, read as a truth value of all, any and the tests of fields; the matches are those of
  -- these rules, in order, with their indicators without repeats, and the tags are without repeats
  -- exactly those of these rules.
  pub matches_for-fires :
      (rules : List (Rule F))
      → (matches_for lower request rules ≡ map answer (filter fires rules))
        × ((t : String)
            → member t (tags_for lower request rules) ≡ any (λ r. fires r && member t r.tags) rules)
        × Distinct (tags_for lower request rules)
  unfolding tags_for
  matches_for-fires rules =
      let are = matches_for-filter rules in
      (
        are,
        λ t. ap (λ ms. member t (tags_of_matches [] ms)) are ∙ member-tags_of_matches t [] rules,
        tags_of_matches-Distinct [] (matches_for lower request rules) tt,
      )
