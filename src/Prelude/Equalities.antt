-- ===== src/Prelude/Equalities.antt =====
-- Python's `==` on `None`, on pairs and on sequences, made of the `==` of what they hold.
use mathlib.Core.Path.{◌≡◌, refl}
use mathlib.Core.Logic.{◌↔◌}
use mathlib.Core.Bool.{Bool, true, false, ◌&&◌}
use mathlib.Core.Option.{Option, none, some}
use mathlib.Core.List.{List, [], ◌∷◌}
use native.Mathlib.Omega.{arith}
use honeypot_fyp.Prelude.Tests.{Equality, ◌==◌}

abbrev bool_beq : Bool → Bool → Bool
bool_beq true b = b
bool_beq false true = false
bool_beq false false = true

pub bool_beq_iff : (a b : Bool) → (bool_beq a b ≡ true) ↔ (a ≡ b)
bool_beq_iff true true = (λ h. refl, λ h. refl)
bool_beq_iff true false = (λ h. cc, λ h. cc)
bool_beq_iff false true = (λ h. cc, λ h. cc)
bool_beq_iff false false = (λ h. refl, λ h. refl)

instance abbrev pub bool_eq : Equality Bool
bool_eq = record { equals = bool_beq; equals_iff = bool_beq_iff }

module _ {ℓ} {A : Type ℓ} ⦃e : Equality A⦄ where
  abbrev option_beq : Option A → Option A → Bool
  option_beq none none = true
  option_beq (some a) (some b) = a == b
  option_beq _ _ = false

  pub option_beq_iff : (a b : Option A) → (option_beq a b ≡ true) ↔ (a ≡ b)
  option_beq_iff none none = (λ h. refl, λ h. refl)
  option_beq_iff none (some b) = (λ h. cc, λ h. cc)
  option_beq_iff (some a) none = (λ h. cc, λ h. cc)
  option_beq_iff (some a) (some b) =
      (λ h. ground (arith, e.equals_iff a b), λ h. ground (arith, e.equals_iff a b))

  instance abbrev pub option_eq : Equality (Option A)
  option_eq = record { equals = option_beq; equals_iff = option_beq_iff }

  abbrev list_beq : List A → List A → Bool
  list_beq [] [] = true
  list_beq (a ∷ as') (b ∷ bs) = a == b && list_beq as' bs
  list_beq _ _ = false

  pub list_beq_iff : (xs ys : List A) → (list_beq xs ys ≡ true) ↔ (xs ≡ ys)
  list_beq_iff [] [] = (λ h. refl, λ h. refl)
  list_beq_iff [] (y ∷ ys) = (λ h. cc, λ h. cc)
  list_beq_iff (x ∷ xs) [] = (λ h. cc, λ h. cc)
  list_beq_iff (x ∷ xs) (y ∷ ys) = (
    λ h. ground (arith, e.equals_iff x y, list_beq_iff xs ys),
    λ h. ground (arith, e.equals_iff x y, list_beq_iff xs ys),
  )

  instance abbrev pub list_eq : Equality (List A)
  list_eq = record { equals = list_beq; equals_iff = list_beq_iff }

module _ {ℓ κ} {A : Type ℓ} {B : Type κ} ⦃e : Equality A⦄ ⦃f : Equality B⦄ where
  abbrev pair_beq : A × B → A × B → Bool
  pair_beq (a, b) (c, d) = a == c && b == d

  pub pair_beq_iff : (p q : A × B) → (pair_beq p q ≡ true) ↔ (p ≡ q)
  pair_beq_iff (a, b) (c, d) = (
    λ h. ground (arith, e.equals_iff a c, f.equals_iff b d),
    λ h. ground (arith, e.equals_iff a c, f.equals_iff b d),
  )

  instance abbrev pub pair_eq : Equality (A × B)
  pair_eq = record { equals = pair_beq; equals_iff = pair_beq_iff }
