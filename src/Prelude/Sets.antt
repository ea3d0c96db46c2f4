-- ===== src/Prelude/Sets.antt =====
-- `in`, `append if absent`, and lists that hold nothing twice: the program keeps its sets so.
use mathlib.Core.Path.{◌≡◌, refl}
use mathlib.Core.Bool.{Bool, true, false, ◌||◌}
use mathlib.Core.List.{List, [], ◌∷◌, ◌++◌}
use mathlib.Core.Logic.{inl, inr}
use native.Mathlib.Omega.{arith}
use honeypot_fyp.Prelude.Tests.{Equality, ◌==◌, Bool-cases, if◌then◌else◌}

module _ {ℓ} {A : Type ℓ} ⦃e : Equality A⦄ where
  -- `a in xs`
  abbrev pub member : A → List A → Bool
  member a [] = false
  member a (x ∷ xs) = x == a || member a xs

  abbrev pub Distinct : List A → Type 0
  Distinct [] = Unit
  Distinct (x ∷ xs) = (member x xs ≡ false) × Distinct xs

  -- `if value not in ordered: ordered.append(value)`
  abbrev pub add : List A → A → List A
  add xs a = if member a xs then xs else xs ++ a ∷ []

  abbrev pub add_all : List A → List A → List A
  add_all xs [] = xs
  add_all xs (a ∷ rest) = add_all (add xs a) rest

  pub beq_refl : (a : A) → (a == a) ≡ true
  beq_refl a = (e.equals_iff a a).1 refl

  pub member-append : (a : A) (xs ys : List A) → member a (xs ++ ys) ≡ (member a xs || member a ys)
  member-append a [] ys = refl
  member-append a (x ∷ xs) ys = ground (arith, member-append a xs ys)

  pub Distinct-append_one :
      (xs : List A) (a : A) → Distinct xs → member a xs ≡ false → Distinct (xs ++ a ∷ [])
  Distinct-append_one [] a d h = (refl, tt)
  Distinct-append_one (x ∷ xs) a d h = (
    ground (arith, member-append x xs (a ∷ []), e.equals_iff a x, e.equals_iff x a),
    Distinct-append_one xs a d.1 (ground arith),
  )

  pub member-add : (b : A) (xs : List A) (a : A) → member b (add xs a) ≡ (member b xs || a == b)
  member-add b xs a = ground (arith, member-append b xs (a ∷ []), e.equals_iff a b)

  pub add-Distinct : (xs : List A) (a : A) → Distinct xs → Distinct (add xs a)
  add-Distinct xs a d = elim (Bool-cases (member a xs)) [
    | inl old ↦ rw old d
    | inr new ↦ rw new (Distinct-append_one xs a d new)
  ]

  pub member-add_all :
      (b : A) (xs ys : List A) → member b (add_all xs ys) ≡ (member b xs || member b ys)
  member-add_all b xs [] = ground arith
  member-add_all b xs (y ∷ ys) = ground (arith, member-add_all b (add xs y) ys, member-add b xs y)

  pub add_all-Distinct : (xs ys : List A) → Distinct xs → Distinct (add_all xs ys)
  add_all-Distinct xs [] d = d
  add_all-Distinct xs (y ∷ ys) d = add_all-Distinct (add xs y) ys (add-Distinct xs y d)

  -- In a list without repeats, what stands before an element is something else.
  pub Distinct-middle :
      (xs : List A) (a : A) (ys : List A) → Distinct (xs ++ a ∷ ys) → member a xs ≡ false
  Distinct-middle [] a ys d = refl
  Distinct-middle (x ∷ xs) a ys d = ground (
    arith,
    Distinct-middle xs a ys d.1,
    member-append x xs (a ∷ ys),
    d.0,
    e.equals_iff x a,
    e.equals_iff a x,
  )
