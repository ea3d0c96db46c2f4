-- ===== src/Profiler/Tags.antt =====
-- `_mappings_from_tags` and `_derive_attack_mappings` of services/profiler/domain.py, and the lookups
-- of services/profiler/attack_catalog.py that they make.
use Prim.Native.Char.{code}
use Prim.Native.String.{◌++◌ as concat}
use honeypot_fyp.Prelude.{
  ℕ, zero, suc, String, Bool, true, false, ◌&&◌, List, [], ◌∷◌, ◌++◌, Option, none, some, is_empty,
  nat_beq, member, if◌then◌else◌, string_eq, option_eq, pair_eq,
}
use honeypot_fyp.Common.Text.{codes, non_blank, begins, suffix}
use honeypot_fyp.Contracts.Evidence.{FalcoEvent}

-- `AttackCatalog`
pub record AttackCatalog : Type 0 where
  pub tactic_for_technique : String → Option String
  pub canonical_tactic_name : String → Option String

pub record AttackMapping : Type 0 where
  pub tech_id : Option String
  pub reason : String
  pub tactic : Option String

-- `\d` of a regular expression: the decimal digits of Unicode, of which Python has the table.
pub record Digits : Type 0 where
  pub is_decimal : ℕ → Bool

-- `n` digits, and what follows them
digits : (ℕ → Bool) → ℕ → List ℕ → Option (List ℕ)
digits is_decimal zero cs = some cs
digits is_decimal (suc n) [] = none
digits is_decimal (suc n) (c ∷ cs) =
    let rest = digits is_decimal n cs in if is_decimal c then rest else none

-- `$`: the end, or a newline before it
at_end : List ℕ → Bool
at_end [] = true
at_end (c ∷ []) = nat_beq c 10
at_end _ = false

after_four : (ℕ → Bool) → Option (List ℕ) → Bool
unfolding digits at_end
after_four is_decimal none = false
after_four is_decimal (some []) = true
after_four is_decimal (some (c ∷ cs)) =
    if nat_beq c b'.'
    then elim (digits is_decimal 3 cs) [ some rest ↦ at_end rest | none ↦ false ]
    else at_end (c ∷ cs)

-- `_TECHNIQUE_TAG_RE.match(tag)`, which is ^T\d{4}(?:\.\d{3})?$
unfoldable pub is_technique_tag : Digits → String → Bool
unfolding after_four
is_technique_tag d String.[] = false
is_technique_tag d (String.◌∷◌ c s) =
    nat_beq (code c) b'T' && after_four d.is_decimal (digits d.is_decimal 4 (codes s))

-- `a or b`, of texts that may be missing
abbrev pub or_else : Option String → Option String → Option String
or_else a b = elim (non_blank a) [ some s ↦ some s | none ↦ b ]

-- The variables of the loop. A key of `seen` is a technique, or none, and its tactic.
pub record TagState : Type 0 where
  pub current_tactic : Option String
  pub tactic_only_mappings : List AttackMapping
  pub mappings : List AttackMapping
  pub seen_mapping_keys : List (Option String × Option String)

abbrev pub start_state : TagState
start_state = record {
  current_tactic = none;
  tactic_only_mappings = [];
  mappings = [];
  seen_mapping_keys = [];
}

module _ {F : Type 0} where
  -- f"{event.falco_rule}: {event.output}"
  unfoldable pub reason_of : FalcoEvent F → String
  reason_of event = concat event.falco_rule (concat ": " event.output)

  unfoldable pub tactic_reason : FalcoEvent F → String
  tactic_reason event = concat "Tag-only tactic mapping for rule " event.falco_rule

module _ {F : Type 0} (d : Digits) (catalog : AttackCatalog) (event : FalcoEvent F) where
  -- the body for a tag of a technique
  unfoldable pub technique_tag : String → TagState → TagState
  unfolding reason_of
  technique_tag tag s =
      let tactic = or_else s.current_tactic (catalog.tactic_for_technique tag) in
      if member (some tag, tactic) s.seen_mapping_keys then s else record s {
        mappings =
            s.mappings
            ++ record { tech_id = some tag; reason = reason_of event; tactic = tactic } ∷ [];
        seen_mapping_keys = (some tag, tactic) ∷ s.seen_mapping_keys;
      }

  -- the body for a tag of a tactic: a tactic with a name, which is the canonical one
  unfoldable pub name_tactic : String → TagState → TagState
  unfolding tactic_reason
  name_tactic tactic s = if member (none, some tactic) s.seen_mapping_keys then s else record s {
    tactic_only_mappings =
        s.tactic_only_mappings
        ++ record { tech_id = none; reason = tactic_reason event; tactic = some tactic } ∷ [];
    seen_mapping_keys = (none, some tactic) ∷ s.seen_mapping_keys;
  }

  unfoldable pub tactic_tag : Option String → TagState → TagState
  unfolding name_tactic
  tactic_tag canonical s =
      let moved = record s { current_tactic = canonical } in
      elim (non_blank canonical) [ none ↦ moved | some tactic ↦ name_tactic tactic moved ]

  unfoldable pub read_tag : String → TagState → TagState
  unfolding begins suffix technique_tag tactic_tag is_technique_tag
  read_tag tag s =
      if begins "mitre_" tag
      then tactic_tag (catalog.canonical_tactic_name (suffix 6 tag)) s
      else if is_technique_tag d tag
      then technique_tag tag s
      else s

  unfoldable pub read_tags : List String → TagState → TagState
  unfolding read_tag
  read_tags [] s = s
  read_tags (tag ∷ rest) s = read_tags rest (read_tag tag s)

  unfoldable pub mappings_from_tags : List AttackMapping
  unfolding read_tags
  mappings_from_tags =
      let s = read_tags event.tags start_state in
      if is_empty s.mappings then s.tactic_only_mappings else s.mappings

  unfoldable pub derive_attack_mappings : List AttackMapping
  unfolding mappings_from_tags
  derive_attack_mappings =
      if is_empty mappings_from_tags
      then record {
        tech_id = none;
        reason = concat "Fallback mapping for rule " event.falco_rule;
        tactic = none;
      }
        ∷ []
      else mappings_from_tags
