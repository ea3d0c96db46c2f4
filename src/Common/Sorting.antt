-- ===== src/Common/Sorting.antt =====
-- Python's `sorted(…, key=…)`, which is stable, and `[-1]`.
use honeypot_fyp.Prelude.{
  Bool, false, ◌||◌, List, [], ◌∷◌, Option, none, some, All, any, Bool-cases, inl, inr,
  if◌then◌else◌, ◌≡◌, refl, arith,
}

-- An element goes before those that it comes before, and after its equals that stand before it.
unfoldable pub insert_by {ℓ} : {A : Type ℓ} → (A → A → Bool) → A → List A → List A
insert_by before a [] = a ∷ []
insert_by before a (b ∷ rest) =
    let later = insert_by before a rest in if before b a then b ∷ later else a ∷ b ∷ rest

unfoldable pub sort_by {ℓ} : {A : Type ℓ} → (A → A → Bool) → List A → List A
unfolding insert_by
sort_by before [] = []
sort_by before (a ∷ rest) = insert_by before a (sort_by before rest)

unfoldable pub last {ℓ} : {A : Type ℓ} → List A → Option A
last [] = none
last (a ∷ []) = some a
last (a ∷ b ∷ rest) = last (b ∷ rest)

module _ {ℓ κ} {A : Type ℓ} (P : A → Type κ) where
  pub All-insert_by :
      (before : A → A → Bool) (a : A) (xs : List A) → P a → All P xs → All P (insert_by before a xs)
  unfolding insert_by
  All-insert_by before a [] p h = (p, tt)
  All-insert_by before a (b ∷ xs) p h = elim (Bool-cases (before b a)) [
    | inl later ↦ rw later (h.0, All-insert_by before a xs p h.1)
    | inr here ↦ rw here (p, h)
  ]

  pub All-sort_by : (before : A → A → Bool) (xs : List A) → All P xs → All P (sort_by before xs)
  unfolding sort_by
  All-sort_by before [] h = tt
  All-sort_by before (x ∷ xs) h = All-insert_by before x _ h.0 (All-sort_by before xs h.1)

-- The order does not matter to `any`.
module _ {ℓ} {A : Type ℓ} (p : A → Bool) (before : A → A → Bool) where
  any-insert_by : (a : A) (xs : List A) → any p (insert_by before a xs) ≡ (p a || any p xs)
  unfolding insert_by
  any-insert_by a [] = refl
  any-insert_by a (b ∷ xs) = ground (arith, any-insert_by a xs)

  pub any-sort_by : (xs : List A) → any p (sort_by before xs) ≡ any p xs
  unfolding sort_by
  any-sort_by [] = refl
  any-sort_by (x ∷ xs) = ground (arith, any-sort_by xs, any-insert_by x (sort_by before xs))

module _ {ℓ} {A : Type ℓ} (before : A → A → Bool) where
  abbrev pub IsLatest : A → List A → Type 0
  IsLatest y xs = any (before y) xs ≡ false

  last-cons : (a y : A) (xs : List A) → last xs ≡ some y → last (a ∷ xs) ≡ some y
  unfolding last
  last-cons a y [] h = cc
  last-cons a y (b ∷ rest) h = h

  last-insert_by :
      (a y : A) (xs : List A)
      → last xs ≡ some y
      → before y a ≡ false
      → last (insert_by before a xs) ≡ some y
  unfolding insert_by last
  last-insert_by a y [] h k = cc
  last-insert_by a y (b ∷ []) h k = elim (Bool-cases (before b a)) [
    | inl later ↦ ground arith
    | inr here ↦ rw here h
  ]
  last-insert_by a y (b ∷ c ∷ rest) h k = elim (Bool-cases (before b a)) [
    | inl later ↦
        rw later (last-cons b y (insert_by before a (c ∷ rest)) (last-insert_by a y (c ∷ rest) h k))
    | inr here ↦ rw here h
  ]

  -- an element before which nothing of the list comes is the last after sorting, if it was
  pub last-sort_by :
      (xs : List A) (y : A) → last xs ≡ some y → IsLatest y xs → last (sort_by before xs) ≡ some y
  unfolding sort_by last
  last-sort_by [] y h k = cc
  last-sort_by (x ∷ []) y h k = h
  last-sort_by (x ∷ z ∷ rest) y h k =
      last-insert_by x y (sort_by before (z ∷ rest)) (last-sort_by (z ∷ rest) y h (ground arith))
        (ground arith)
