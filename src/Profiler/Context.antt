-- ===== src/Profiler/Context.antt =====
-- What `_mappings_from_tags` of services/profiler/domain.py makes of the tags, without its sets.
use honeypot_fyp.Prelude.{
  String, List, [], ◌∷◌, map, Option, none, some, is_empty, member, add, add_all, member-append,
  if◌then◌else◌, string_eq, option_eq, pair_eq, ◌≡◌, refl, sym, ◌∙◌, arith, Bool-cases,
  Option-cases, inl, inr,
}
use mathlib.Core.List.{map-append}
use honeypot_fyp.Common.Text.{non_blank, begins, suffix}
use honeypot_fyp.Common.Iterables.{dedupe_preserve}
use honeypot_fyp.Contracts.Evidence.{FalcoEvent}
use honeypot_fyp.Profiler.Tags.{
  AttackCatalog, AttackMapping, Digits, is_technique_tag, or_else, TagState, start_state, reason_of,
  tactic_reason, technique_tag, tactic_tag, name_tactic, read_tag, read_tags, mappings_from_tags,
}

module _ (d : Digits) (catalog : AttackCatalog) where
  -- the tactic of a tag: the nearest tactic tag before it, as the catalog names it
  abbrev pub context : Option String → String → Option String
  context current tag =
      if begins "mitre_" tag then catalog.canonical_tactic_name (suffix 6 tag) else current

  -- Each technique tag with its tactic: that of its context, or the catalog's for the technique.
  unfoldable pub techniques : Option String → List String → List (String × Option String)
  techniques current [] = []
  techniques current (tag ∷ rest) =
      let later = techniques (context current tag) rest in
      if begins "mitre_" tag
      then later
      else if is_technique_tag d tag
      then (tag, or_else current (catalog.tactic_for_technique tag)) ∷ later
      else later

  -- The tactics that the tactic tags name.
  unfoldable pub tactics : List String → List String
  tactics [] = []
  tactics (tag ∷ rest) =
      let later = tactics rest in
      if begins "mitre_" tag
      then elim (non_blank (catalog.canonical_tactic_name (suffix 6 tag))) [
        | some tactic ↦ tactic ∷ later
        | none ↦ later
      ]
      else later

module _ {F : Type 0} (event : FalcoEvent F) where
  abbrev pub technique_mapping : String × Option String → AttackMapping
  technique_mapping (tag, tactic) = record {
    tech_id = some tag;
    reason = reason_of event;
    tactic = tactic;
  }

  abbrev pub tactic_mapping : String → AttackMapping
  tactic_mapping tactic = record {
    tech_id = none;
    reason = tactic_reason event;
    tactic = some tactic;
  }

  -- What the variables of the loop stand for: a tactic, techniques with their tactics, and tactics.
  record Stands (s : TagState) (current : Option String) (ts : List (String × Option String))
      (cs : List String) : Type 0 where
    now : s.current_tactic ≡ current
    made : s.mappings ≡ map technique_mapping ts
    named : s.tactic_only_mappings ≡ map tactic_mapping cs
    techniques_seen :
        (t : String) (tactic : Option String)
        → member (some t, tactic) s.seen_mapping_keys ≡ member (t, tactic) ts
    tactics_seen : (c : String) → member (none, some c) s.seen_mapping_keys ≡ member c cs

  module _ (d : Digits) (catalog : AttackCatalog) (s : TagState) (current : Option String)
      (ts : List (String × Option String)) (cs : List String) where
    technique_tag-Stands :
        (tag : String)
        → Stands s current ts cs
        → Stands
            (technique_tag d catalog event tag s)
            current
            (add ts (tag, or_else current (catalog.tactic_for_technique tag)))
            cs
    unfolding technique_tag
    technique_tag-Stands tag i =
        let tactic = or_else current (catalog.tactic_for_technique tag) in
        simp (i.now) (elim (Bool-cases (member (some tag, tactic) s.seen_mapping_keys)) [
          | inl old ↦ rw (old, sym (i.techniques_seen tag tactic) ∙ old) i
          | inr new ↦
              rw (new, sym (i.techniques_seen tag tactic) ∙ new)
                (record {
                  now = refl;
                  made = rw (map-append technique_mapping ts ((tag, tactic) ∷ []), i.made) refl;
                  named = i.named;
                  techniques_seen = λ t u.
                      ground (
                        arith,
                        i.techniques_seen t u,
                        member-append (t, u) ts ((tag, tactic) ∷ []),
                      );
                  tactics_seen = λ c. i.tactics_seen c;
                })
        ])

    name_tactic-Stands :
        (c : String)
        → Stands s current ts cs
        → Stands (name_tactic d catalog event c s) current ts (add cs c)
    unfolding name_tactic
    name_tactic-Stands c i = elim (Bool-cases (member (none, some c) s.seen_mapping_keys)) [
      | inl old ↦ rw (old, sym (i.tactics_seen c) ∙ old) i
      | inr new ↦
          rw (new, sym (i.tactics_seen c) ∙ new)
            (record {
              now = i.now;
              made = i.made;
              named = rw (map-append tactic_mapping cs (c ∷ []), i.named) refl;
              techniques_seen = λ t u. i.techniques_seen t u;
              tactics_seen = λ c'. ground (arith, i.tactics_seen c', member-append c' cs (c ∷ []));
            })
    ]

    moved-Stands :
        (next : Option String)
        → Stands s current ts cs
        → Stands (record s { current_tactic = next }) next ts cs
    moved-Stands next i = record {
      now = refl;
      made = i.made;
      named = i.named;
      techniques_seen = λ t u. i.techniques_seen t u;
      tactics_seen = λ c. i.tactics_seen c;
    }

  module _ (d : Digits) (catalog : AttackCatalog) where
    -- The loop adds the techniques and the tactics of the tags that are left.
    read_tags-Stands :
        (tags : List String) (s : TagState) (current : Option String)
        (ts : List (String × Option String)) (cs : List String)
        → Stands s current ts cs
        → (last : Option String) × Stands
            (read_tags d catalog event tags s)
            last
            (add_all ts (techniques d catalog current tags))
            (add_all cs (tactics d catalog tags))
    unfolding read_tags read_tag techniques tactics
    read_tags-Stands [] s current ts cs i = (current, i)
    read_tags-Stands (tag ∷ rest) s current ts cs i = elim (Bool-cases (begins "mitre_" tag)) [
      | inl tactic ↦
          let next = catalog.canonical_tactic_name (suffix 6 tag) in
          let moved = record s { current_tactic = next } in
          let moved_stands = moved-Stands d catalog s current ts cs next i in
          rw tactic (elim (Option-cases (non_blank next)) [
            | inl nothing ↦
                rw (nothing, tactic_tag) (read_tags-Stands rest moved next ts cs moved_stands)
            | inr (c, word) ↦
                rw (word, tactic_tag)
                  (read_tags-Stands rest (name_tactic d catalog event c moved) next ts (add cs c)
                    (name_tactic-Stands d catalog moved next ts cs c moved_stands))
          ])
      | inr other ↦ elim (Bool-cases (is_technique_tag d tag)) [
        | inl technique ↦
            rw (other, technique)
              (read_tags-Stands rest (technique_tag d catalog event tag s) current
                (add ts (tag, or_else current (catalog.tactic_for_technique tag))) cs
                (technique_tag-Stands d catalog s current ts cs tag i))
        | inr skipped ↦ rw (other, skipped) (read_tags-Stands rest s current ts cs i)
      ]
    ]

    -- The mappings of an event are its different pairs of a technique tag and a tactic, in the
    -- order of the tags, where the tactic is that of the nearest tactic tag before it, or the
    -- catalog's for the technique where that has no name; without technique tags they are the
    -- different tactics of its tactic tags.
    pub mappings_from_tags_lem : mappings_from_tags d catalog event ≡ (
        let found = dedupe_preserve (techniques d catalog none event.tags) in
        if is_empty found
        then map tactic_mapping (dedupe_preserve (tactics d catalog event.tags))
        else map technique_mapping found)
    unfolding mappings_from_tags dedupe_preserve
    mappings_from_tags_lem =
        let (_, i) = read_tags-Stands event.tags start_state none [] [] (record {
          now = refl;
          made = refl;
          named = refl;
          techniques_seen = λ t u. refl;
          tactics_seen = λ c. refl;
        }) in
        rw (i.made, i.named) (cases (add_all [] (techniques d catalog none event.tags)) _)
      where
        cases :
            (ts : List (String × Option String)) (cs : List AttackMapping)
            → (if is_empty (map technique_mapping ts) then cs else map technique_mapping ts)
              ≡ (if is_empty ts then cs else map technique_mapping ts)
        cases [] cs = refl
        cases (t ∷ ts) cs = refl
