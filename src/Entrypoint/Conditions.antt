-- ===== src/Entrypoint/Conditions.antt =====
-- `_matched_indicators` of services/entrypoint/rule_matcher.py: a condition is an object of the JSON rules, made
-- of `all`, `any` and tests of one field.
use Prim.Native.String.{◌++◌ as concat}
use honeypot_fyp.Prelude.{
  ℕ, String, Bool, ◌||◌, List, [], ◌∷◌, ◌++◌, Option, none, some, is_empty, if◌then◌else◌, ◌==◌,
  string_eq, list_eq, nat_eq,
}
use honeypot_fyp.Common.Dict.{Dict, get}
use honeypot_fyp.Common.Json.{
  Json, null, bool, num, text, arr, obj, Items, nil, cons, Fields, end, field, fields, as_list,
  text_items,
}
use honeypot_fyp.Common.Text.{codes, occurs}

-- `value.endswith(suffix)`, on code points
unfoldable pub ends : List ℕ → List ℕ → Bool
ends suffix [] = suffix == []
ends suffix (c ∷ value) = suffix == c ∷ value || ends suffix value

-- The results for the children of `all`, where none is a child that is no object: it fails at once.
unfoldable pub all_loop : List String → List (Option (List String)) → List String
all_loop found [] = found
all_loop found (none ∷ rest) = []
all_loop found (some [] ∷ rest) = []
all_loop found (some (i ∷ is) ∷ rest) = all_loop (found ++ i ∷ is) rest

-- and for those of `any`
unfoldable pub any_loop : List (Option (List String)) → List String
any_loop [] = []
any_loop (none ∷ rest) = any_loop rest
any_loop (some is ∷ rest) = is ++ any_loop rest

-- The three branches. Of a key, none: it is not there; some none: it holds no list.
abbrev pub decide :
    Option (Option (List (Option (List String))))
    → Option (Option (List (Option (List String))))
    → List String
    → List String
decide (some none) anys test = []
decide (some (some children)) anys test = all_loop [] children
decide none (some none) test = []
decide none (some (some children)) test = any_loop children
decide none none test = test

-- `[_format_indicator(field, m) for m in markers if isinstance(m, str) and test(m)]`
unfoldable pub hits : (String → String) → String → (List ℕ → Bool) → List String → List String
hits lower name test [] = []
hits lower name test (marker ∷ rest) =
    let later = hits lower name test rest in
    if test (codes (lower marker)) then concat name (concat ":" marker) ∷ later else later

-- the first of two results that is not empty
abbrev pub first_of : List String → List String → List String
first_of found later = if is_empty found then later else found

module _ {F : Type 0} where
  -- `condition.get(key)` where it is a list, its texts
  unfoldable pub markers_at : String → Dict (Json F) → List String
  unfolding get text_items
  markers_at key condition = text_items (as_list (get key condition))

module _ {F : Type 0} (lower : String → String) (request : Dict String) where
  unfoldable pub field_test : String → List ℕ → Dict (Json F) → List String
  unfolding hits occurs ends markers_at
  field_test name value condition =
      first_of (hits lower name (λ m. occurs m value) (markers_at "contains_any" condition)) (
        first_of (hits lower name (λ m. ends m value) (markers_at "endswith_any" condition))
          (hits lower name (λ m. value == m) (markers_at "equals_any" condition)))

  -- the tests of `condition["field"]`, where it is one of the fields of the request
  unfoldable pub leaf : Dict (Json F) → List String
  unfolding field_test get
  leaf condition = elim (get "field" condition) [
    | some (text name) ↦ elim (get name request) [
      | some value ↦ field_test name (codes value) condition
      | none ↦ []
    ]
    | _ ↦ []
  ]

  unfoldable mutual
    unfolding leaf

    -- the indicators of a condition; none for a value that is no object
    pub indicators : Json F → Option (List String)
    indicators (obj fs) = some (decide (children "all" fs) (children "any" fs) (leaf (fields fs)))
    indicators null = none
    indicators (bool b) = none
    indicators (num x) = none
    indicators (text s) = none
    indicators (arr vs) = none

    pub children : String → Fields F → Option (Option (List (Option (List String))))
    children key end = none
    children key (field k v fs) =
        let here = listed v in let later = children key fs in if k == key then some here else later

    pub listed : Json F → Option (List (Option (List String)))
    listed (arr vs) = some (each vs)
    listed null = none
    listed (bool b) = none
    listed (num x) = none
    listed (text s) = none
    listed (obj fs) = none

    pub each : Items F → List (Option (List String))
    each nil = []
    each (cons v vs) = indicators v ∷ each vs

  -- `_matched_indicators`
  unfoldable pub matched_indicators : Fields F → List String
  unfolding indicators
  matched_indicators condition =
      decide (children "all" condition) (children "any" condition) (leaf (fields condition))
