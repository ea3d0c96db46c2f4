-- ===== src/Entrypoint/Truth.antt =====
-- When a condition of services/entrypoint/rule_matcher.py holds: `all`, `any` and the tests of a field read as
-- truth values.
use honeypot_fyp.Prelude.{
  ℕ, String, Bool, false, not, ◌&&◌, ◌||◌, List, [], ◌∷◌, ◌++◌, map, Option, none, some, is_empty,
  any, ◌==◌, string_eq, list_eq, nat_eq, ◌≡◌, refl, ap, ◌∙◌, arith, Bool-cases, inl, inr,
}
use honeypot_fyp.Common.Dict.{Dict, get}
use honeypot_fyp.Common.Json.{
  Json, null, bool, num, text, arr, obj, Items, nil, cons, Fields, end, field, fields,
}
use honeypot_fyp.Common.Text.{codes, occurs}
use honeypot_fyp.Entrypoint.Conditions.{
  ends, all_loop, any_loop, decide, hits, first_of, markers_at, field_test, leaf, indicators,
  children, listed, each, matched_indicators,
}
use honeypot_fyp.Entrypoint.Holds.{
  holds_all, holds_any, verdict, matched, matches, field_holds, leaf_holds, holds, held, held_list,
  held_each,
}

nonempty-hits :
    (lower : String → String) (name : String) (test : List ℕ → Bool) (ms : List String)
    → not (is_empty (hits lower name test ms)) ≡ any (λ m. test (codes (lower m))) ms
unfolding hits
nonempty-hits lower name test [] = refl
nonempty-hits lower name test (m ∷ ms) = ground (arith, nonempty-hits lower name test ms)

nonempty-first_of :
    (a b : List String) → not (is_empty (first_of a b)) ≡ (not (is_empty a) || not (is_empty b))
nonempty-first_of [] b = refl
nonempty-first_of (x ∷ a) b = refl

nonempty-append :
    (a b : List String) → not (is_empty (a ++ b)) ≡ (not (is_empty a) || not (is_empty b))
nonempty-append [] b = refl
nonempty-append (x ∷ a) b = refl

nonempty-all_loop :
    (found : List String) (rs : List (Option (List String)))
    → not (is_empty (all_loop found rs))
      ≡ (holds_all (map matched rs) && (not (is_empty found) || not (is_empty rs)))
unfolding all_loop
nonempty-all_loop found [] = ground arith
nonempty-all_loop found (none ∷ rs) = refl
nonempty-all_loop found (some [] ∷ rs) = refl
nonempty-all_loop found (some (i ∷ is) ∷ rs) =
    nonempty-all_loop (found ++ i ∷ is) rs ∙ ground (arith, nonempty-append found (i ∷ is))

nonempty-any_loop :
    (rs : List (Option (List String))) → not (is_empty (any_loop rs)) ≡ holds_any (map matched rs)
unfolding any_loop
nonempty-any_loop [] = refl
nonempty-any_loop (none ∷ rs) = nonempty-any_loop rs
nonempty-any_loop (some is ∷ rs) =
    nonempty-append is (any_loop rs) ∙ ap (λ b. not (is_empty is) || b) (nonempty-any_loop rs)

nonempty-decide :
    (a b : Option (Option (List (Option (List String))))) (test : List String)
    → not (is_empty (decide a b test)) ≡ verdict (matches a) (matches b) (not (is_empty test))
nonempty-decide (some none) b test = refl
nonempty-decide (some (some [])) b test = nonempty-all_loop [] []
nonempty-decide (some (some (r ∷ rs))) b test = nonempty-all_loop [] (r ∷ rs) ∙ ground arith
nonempty-decide none (some none) test = refl
nonempty-decide none (some (some rs)) test = nonempty-any_loop rs
nonempty-decide none none test = refl

module _ {F : Type 0} (lower : String → String) (request : Dict String) where
  nonempty-field_test :
      (name : String) (value : List ℕ) (condition : Dict (Json F))
      → not (is_empty (field_test lower request name value condition))
        ≡ field_holds lower request value condition
  unfolding field_test
  nonempty-field_test name value condition =
      let first = hits lower name (λ m. occurs m value) (markers_at "contains_any" condition) in
      let second = hits lower name (λ m. ends m value) (markers_at "endswith_any" condition) in
      let third = hits lower name (λ m. value == m) (markers_at "equals_any" condition) in
      nonempty-first_of first (first_of second third)
      ∙ ap (λ b. not (is_empty first) || b) (nonempty-first_of second third)
      ∙ ap (λ b. b || (not (is_empty second) || not (is_empty third)))
          (nonempty-hits lower name (λ m. occurs m value) (markers_at "contains_any" condition))
      ∙ ap
          (λ b.
            any (λ m. occurs (codes (lower m)) value) (markers_at "contains_any" condition)
            || (b || not (is_empty third)))
          (nonempty-hits lower name (λ m. ends m value) (markers_at "endswith_any" condition))
      ∙ ap
          (λ b.
            any (λ m. occurs (codes (lower m)) value) (markers_at "contains_any" condition)
            || (any (λ m. ends (codes (lower m)) value) (markers_at "endswith_any" condition) || b))
          (nonempty-hits lower name (λ m. value == m) (markers_at "equals_any" condition))

  nonempty-leaf :
      (condition : Dict (Json F))
      → not (is_empty (leaf lower request condition)) ≡ leaf_holds lower request condition
  unfolding leaf leaf_holds
  nonempty-leaf condition = of_name (get "field" condition)
    where
      of_value :
          (name : String) (value : Option String)
          → not (
              is_empty (elim value [
                | some v ↦ field_test lower request name (codes v) condition
                | none ↦ []
              ]))
            ≡ (elim value [ some v ↦ field_holds lower request (codes v) condition | none ↦ false ])
      of_value name none = refl
      of_value name (some v) = nonempty-field_test name (codes v) condition

      of_name :
          (o : Option (Json F))
          → not (
              is_empty (elim o [
                | some (text name) ↦ elim (get name request) [
                  | some v ↦ field_test lower request name (codes v) condition
                  | none ↦ []
                ]
                | _ ↦ []
              ]))
            ≡ (elim o [
              | some (text name) ↦ elim (get name request) [
                | some v ↦ field_holds lower request (codes v) condition
                | none ↦ false
              ]
              | _ ↦ false
            ])
      of_name (some (text name)) = of_value name (get name request)
      of_name none = refl
      of_name (some null) = refl
      of_name (some (bool b)) = refl
      of_name (some (num x)) = refl
      of_name (some (arr vs)) = refl
      of_name (some (obj fs)) = refl

  mutual
    unfolding indicators holds

    indicators-holds : (v : Json F) → matched (indicators lower request v) ≡ holds lower request v
    indicators-holds (obj fs) =
        nonempty-decide (children lower request "all" fs) (children lower request "any" fs)
          (leaf lower request (fields fs))
        ∙ ap
            (λ o.
              verdict o (matches (children lower request "any" fs))
                (not (is_empty (leaf lower request (fields fs)))))
            (children-held "all" fs)
        ∙ ap
            (λ o.
              verdict (held lower request "all" fs) o
                (not (is_empty (leaf lower request (fields fs)))))
            (children-held "any" fs)
        ∙ ap (verdict (held lower request "all" fs) (held lower request "any" fs))
            (nonempty-leaf (fields fs))
    indicators-holds null = refl
    indicators-holds (bool b) = refl
    indicators-holds (num x) = refl
    indicators-holds (text s) = refl
    indicators-holds (arr vs) = refl

    children-held :
        (key : String) (fs : Fields F)
        → matches (children lower request key fs) ≡ held lower request key fs
    children-held key end = refl
    children-held key (field k v fs) = elim (Bool-cases (k == key)) [
      | inl here ↦ rw here (listed-held v)
      | inr past ↦ rw past (children-held key fs)
    ]

    listed-held :
        (v : Json F) → matches (some (listed lower request v)) ≡ some (held_list lower request v)
    listed-held (arr vs) = ap (λ bs. some (some bs)) (each-held vs)
    listed-held null = refl
    listed-held (bool b) = refl
    listed-held (num x) = refl
    listed-held (text s) = refl
    listed-held (obj fs) = refl

    each-held : (vs : Items F) → map matched (each lower request vs) ≡ held_each lower request vs
    each-held nil = refl
    each-held (cons v vs) =
        ap (λ b. b ∷ map matched (each lower request vs)) (indicators-holds v)
        ∙ ap (◌∷◌ (holds lower request v)) (each-held vs)

  -- The code finds an indicator exactly if the condition holds.
  pub matched_indicators-holds :
      (condition : Fields F)
      → not (is_empty (matched_indicators lower request condition))
        ≡ holds lower request (obj condition)
  unfolding matched_indicators indicators
  matched_indicators-holds condition = indicators-holds (obj condition)
