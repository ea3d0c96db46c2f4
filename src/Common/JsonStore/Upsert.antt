-- ===== src/Common/JsonStore/Upsert.antt =====
-- What `upsert_list_item` of libs/common/json_store.py does to the list, by the items that match.
use honeypot_fyp.Prelude.{
  suc, ◌+◌, Bool, true, false, not, List, [], ◌∷◌, ◌++◌, Option, none, some, any, filter, length,
  length-append, ◌≡◌, refl, ap, arith, if◌then◌else◌, Bool-cases, inl, inr, filter-append,
  append-nil,
}
use honeypot_fyp.Common.JsonStore.{replace, upsert_items}

module _ {ℓ} {A : Type ℓ} where
  -- The first item that passes a test.
  unfoldable pub find : (A → Bool) → List A → Option A
  find p [] = none
  find p (x ∷ xs) = if p x then some x else find p xs

  abbrev pub keeps : (A → Bool) → A → Bool
  keeps p x = not (p x)

  module _ (p : A → Bool) (item : A) (fits : p item ≡ true) where
    find-replace : (xs : List A) → any p xs ≡ true → find p (replace p item xs) ≡ some item
    unfolding find replace
    find-replace [] h = cc
    find-replace (x ∷ xs) h = elim (Bool-cases (p x)) [
      | inl here ↦ rw (here, fits)
      | inr past ↦ rw (past, past) (find-replace xs (rw past at h))
    ]

    find-append :
        (xs : List A) → any p xs ≡ false → find p (replace p item xs ++ item ∷ []) ≡ some item
    unfolding find replace
    find-append [] h = rw fits
    find-append (x ∷ xs) h = ground (arith, find-append xs)

    -- What is found afterwards is the item that was written.
    pub find-upsert_items : (xs : List A) → find p (upsert_items p item xs) ≡ some item
    unfolding upsert_items
    find-upsert_items xs = elim (Bool-cases (any p xs)) [
      | inl there ↦ rw there (find-replace xs there)
      | inr missing ↦ rw missing (find-append xs missing)
    ]

    others-replace : (xs : List A) → filter (keeps p) (replace p item xs) ≡ filter (keeps p) xs
    unfolding replace
    others-replace [] = refl
    others-replace (x ∷ xs) = ground (arith, others-replace xs)

    -- The items that do not match stay, in their order.
    pub others-upsert_items :
        (xs : List A) → filter (keeps p) (upsert_items p item xs) ≡ filter (keeps p) xs
    unfolding upsert_items
    others-upsert_items xs = ground (
      arith,
      others-replace xs,
      filter-append (keeps p) (replace p item xs) (item ∷ []),
      append-nil (filter (keeps p) (replace p item xs)),
    )

    length-replace : (xs : List A) → length (replace p item xs) ≡ length xs
    unfolding replace
    length-replace [] = refl
    length-replace (x ∷ xs) = ap suc (length-replace xs)

    -- The list grows by one exactly where nothing matched.
    pub length-upsert_items :
        (xs : List A)
        → length (upsert_items p item xs) ≡ (if any p xs then length xs else length xs + 1)
    unfolding upsert_items
    length-upsert_items xs =
        ground (arith, length-replace xs, length-append (replace p item xs) (item ∷ []))

  module _ (p q : A → Bool) (item : A) (other : q item ≡ false) where
    find_ne-replace :
        (xs : List A)
        → ((x : A) → p x ≡ true → q x ≡ false)
        → find q (replace p item xs) ≡ find q xs
    unfolding find replace
    find_ne-replace [] disjoint = refl
    find_ne-replace (x ∷ xs) disjoint = elim (Bool-cases (p x)) [
      | inl here ↦ rw (here, other, disjoint x here) (find_ne-replace xs disjoint)
      | inr past ↦
          rw past (ap (λ (o : Option A). if q x then some x else o) (find_ne-replace xs disjoint))
    ]

    find_ne-append : (xs : List A) → find q (xs ++ item ∷ []) ≡ find q xs
    unfolding find
    find_ne-append [] = rw other
    find_ne-append (x ∷ xs) = rw (find_ne-append xs)

    -- An item found under another test is untouched, if no item passes both.
    pub find_ne-upsert_items :
        (xs : List A)
        → ((x : A) → p x ≡ true → q x ≡ false)
        → find q (upsert_items p item xs) ≡ find q xs
    unfolding upsert_items
    find_ne-upsert_items xs disjoint =
        ground (arith, find_ne-replace xs disjoint, find_ne-append (replace p item xs))
