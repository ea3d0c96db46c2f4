-- ===== src/Entrypoint/Holds.antt =====
-- The conditions of services/entrypoint/rule_matcher.py as truth values: what `all`, `any` and the tests of a field say.
use honeypot_fyp.Prelude.{
  ℕ, String, Bool, true, false, not, ◌&&◌, ◌||◌, List, [], ◌∷◌, map, Option, none, some, is_empty,
  any, if◌then◌else◌, ◌==◌, string_eq, list_eq, nat_eq,
}
use honeypot_fyp.Common.Dict.{Dict, get}
use honeypot_fyp.Common.Json.{
  Json, null, bool, num, text, arr, obj, Items, nil, cons, Fields, end, field, fields,
}
use honeypot_fyp.Common.Text.{codes, occurs}
use honeypot_fyp.Entrypoint.Conditions.{ends, markers_at}

abbrev pub holds_all : List Bool → Bool
holds_all [] = true
holds_all (b ∷ bs) = b && holds_all bs

abbrev pub holds_any : List Bool → Bool
holds_any [] = false
holds_any (b ∷ bs) = b || holds_any bs

-- An `all` of nothing does not hold.
abbrev pub verdict : Option (Option (List Bool)) → Option (Option (List Bool)) → Bool → Bool
verdict (some none) anys test = false
verdict (some (some bs)) anys test = not (is_empty bs) && holds_all bs
verdict none (some none) test = false
verdict none (some (some bs)) test = holds_any bs
verdict none none test = test

abbrev pub matched : Option (List String) → Bool
matched none = false
matched (some is) = not (is_empty is)

abbrev pub matches : Option (Option (List (Option (List String)))) → Option (Option (List Bool))
matches none = none
matches (some none) = some none
matches (some (some rs)) = some (some (map matched rs))

module _ {F : Type 0} (lower : String → String) (request : Dict String) where
  -- A marker of one of the lists is contained in, ends, or is the value of the field.
  abbrev pub field_holds : List ℕ → Dict (Json F) → Bool
  field_holds value condition =
      any (λ m. occurs (codes (lower m)) value) (markers_at "contains_any" condition)
      || (any (λ m. ends (codes (lower m)) value) (markers_at "endswith_any" condition)
          || any (λ m. value == codes (lower m)) (markers_at "equals_any" condition))

  unfoldable pub leaf_holds : Dict (Json F) → Bool
  unfolding get
  leaf_holds condition = elim (get "field" condition) [
    | some (text name) ↦ elim (get name request) [
      | some value ↦ field_holds (codes value) condition
      | none ↦ false
    ]
    | _ ↦ false
  ]

  unfoldable mutual
    unfolding leaf_holds

    pub holds : Json F → Bool
    holds (obj fs) = verdict (held "all" fs) (held "any" fs) (leaf_holds (fields fs))
    holds null = false
    holds (bool b) = false
    holds (num x) = false
    holds (text s) = false
    holds (arr vs) = false

    pub held : String → Fields F → Option (Option (List Bool))
    held key end = none
    held key (field k v fs) =
        let here = held_list v in let later = held key fs in if k == key then some here else later

    pub held_list : Json F → Option (List Bool)
    held_list (arr vs) = some (held_each vs)
    held_list null = none
    held_list (bool b) = none
    held_list (num x) = none
    held_list (text s) = none
    held_list (obj fs) = none

    pub held_each : Items F → List Bool
    held_each nil = []
    held_each (cons v vs) = holds v ∷ held_each vs
