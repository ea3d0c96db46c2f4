-- ===== src/Common/JsonStore/Keyed.antt =====
-- Lists of records with a key, as the file repositories keep them: the dictionary that a
-- comprehension builds from the list, and what it finds after an `upsert_list_item`.
use honeypot_fyp.Prelude.{
  String, Bool, true, false, List, [], ◌∷◌, ◌++◌, map, Option, none, some, any, ◌≡◌, refl, arith,
  eq_iff, ◌==◌, string_eq, if◌then◌else◌,
}
use honeypot_fyp.Common.Dict
use honeypot_fyp.Common.Dict.{Dict, last_of, get-of_pairs, of_pairs}
use honeypot_fyp.Common.JsonStore.{replace, upsert_items}

module _ {A : Type 0} (key : A → String) where
  abbrev pub keyed : A → String × A
  keyed x = (key x, x)

  -- `{key(item): item for item in items}`
  unfoldable pub by_key : List A → Dict A
  by_key items = of_pairs (map keyed items)

  abbrev pub same_key : A → A → Bool
  same_key item existing = key existing == key item

  unfoldable pub upsert_keyed : A → List A → List A
  unfolding upsert_items
  upsert_keyed item existing = upsert_items (same_key item) item existing

  module _ (r : A) where
    last_ne-replace :
        (j : String) (found : Option A) (xs : List A)
        → (key r == j) ≡ false
        → last_of j found (map keyed (replace (same_key r) r xs)) ≡ last_of j found (map keyed xs)
    unfolding replace
    last_ne-replace j found [] h = refl
    last_ne-replace j found (x ∷ xs) h = ground (
      arith,
      last_ne-replace j found xs h,
      last_ne-replace j (some x) xs h,
      eq_iff (key x) (key r),
      eq_iff (key x) j,
      eq_iff (key r) j,
    )

    last_absent :
        (found : Option A) (xs : List A)
        → any (same_key r) xs ≡ false
        → last_of (key r) found (map keyed (replace (same_key r) r xs)) ≡ found
    unfolding replace
    last_absent found [] h = refl
    last_absent found (x ∷ xs) h = ground (arith, last_absent found xs)

    last_self :
        (found : Option A) (xs : List A)
        → any (same_key r) xs ≡ true
        → last_of (key r) found (map keyed (replace (same_key r) r xs)) ≡ some r
    unfolding replace
    last_self found [] h = cc
    last_self found (x ∷ xs) h = ground (
      arith,
      last_self found xs,
      last_self (some r) xs,
      last_absent (some r) xs,
      eq_iff (key r) (key r),
    )

    pub last-append :
        (j : String) (found : Option A) (xs : List A)
        → last_of j found (map keyed (xs ++ r ∷ []))
          ≡ (if key r == j then some r else last_of j found (map keyed xs))
    last-append j found [] = refl
    last-append j found (x ∷ xs) = last-append j (if key x == j then some x else found) xs

    -- After an upsert of a record the dictionary of the repository finds the record at its key, and
    -- at any other key what it found before.
    pub by_key-upsert_keyed :
        (j : String) (xs : List A)
        → Dict.get j (by_key (upsert_keyed r xs))
          ≡ (if key r == j then some r else Dict.get j (by_key xs))
    unfolding by_key upsert_keyed
    by_key-upsert_keyed j xs = ground (
      arith,
      get-of_pairs j (map keyed xs),
      get-of_pairs j (map keyed (replace (same_key r) r xs)),
      get-of_pairs j (map keyed (replace (same_key r) r xs ++ r ∷ [])),
      last_ne-replace j none xs,
      last_self none xs,
      last-append j none (replace (same_key r) r xs),
      eq_iff (key r) j,
    )
