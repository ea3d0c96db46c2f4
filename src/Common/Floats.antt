-- ===== src/Common/Floats.antt =====
-- Python's `float`, as an interface. The program's scores are finite, so NaN and the infinities are
-- left out; what the proofs rely on is that `<=` is a total preorder.
use Prim.Native.Nat.{◌+◌, ◌*◌, ◌-◌, ◌/◌}
use honeypot_fyp.Prelude.{
  ℕ, String, List, [], ◌∷◌, Bool, true, false, not, ◌≡◌, ◌⊎◌, arith, leb, if◌then◌else◌,
}

pub record FloatOps (F : Type 0) : Type 0 where
  -- `a <= b`
  pub fle : F → F → Bool
  pub fadd : F → F → F
  pub fsub : F → F → F
  pub fmul : F → F → F
  -- `a / b`, at a `b` that is not 0
  pub fdiv : F → F → F
  -- `float(n)`, and the literal n / 100
  pub of_nat : ℕ → F
  pub hundredths : ℕ → F
  -- `str(x)`
  pub show : F → String
  -- `math.exp(-x)`
  pub exp_neg : F → F
  -- `round(x, places)`
  pub round : F → ℕ → F
  pub fle_total : (a b : F) → (fle a b ≡ true) ⊎ (fle b a ≡ true)
  pub fle_trans : (a b c : F) → fle a b ≡ true → fle b c ≡ true → fle a c ≡ true

module _ {F : Type 0} ⦃ops : FloatOps F⦄ where
  abbrev pub fle : F → F → Bool
  fle = ops.fle

  -- `a < b`
  abbrev pub flt : F → F → Bool
  flt a b = not (ops.fle b a)

  -- `a == b`
  abbrev pub feq : F → F → Bool
  feq a b = if ops.fle a b then ops.fle b a else false

  -- `max(a, b)` and `min(a, b)`: the first argument, unless the second is strictly beyond it.
  abbrev pub fmax : F → F → F
  fmax a b = if flt a b then b else a

  abbrev pub fmin : F → F → F
  fmin a b = if flt b a then b else a

  -- `max(0.0, min(1.0, x))`
  unfoldable pub clamp_unit : F → F
  clamp_unit x = fmax (ops.hundredths 0) (fmin (ops.hundredths 100) x)

  -- `sum(xs)` adds from the left, from 0.
  sum_from : F → List F → F
  sum_from total [] = total
  sum_from total (x ∷ xs) = sum_from (ops.fadd total x) xs

  unfoldable pub sum : List F → F
  unfolding sum_from
  sum xs = sum_from (ops.hundredths 0) xs

  -- A clamped value lies between 0.0 and 1.0, once 0.0 <= 1.0.
  pub clamp_unit_bounds :
      (x : F)
      → ops.fle (ops.hundredths 0) (ops.hundredths 100) ≡ true
      → (ops.fle (ops.hundredths 0) (clamp_unit x) ≡ true)
        × (ops.fle (clamp_unit x) (ops.hundredths 100) ≡ true)
  unfolding clamp_unit
  clamp_unit_bounds x h = ground (
    arith,
    ops.fle_total (ops.hundredths 0) (ops.hundredths 0),
    ops.fle_total (ops.hundredths 100) (ops.hundredths 100),
    ops.fle_total x (ops.hundredths 100),
    ops.fle_total x (ops.hundredths 0),
  )

pub nat_total : (a b : ℕ) → (leb a b ≡ true) ⊎ (leb b a ≡ true)
nat_total a b = ground arith

pub nat_trans : (a b c : ℕ) → leb a b ≡ true → leb b c ≡ true → leb a c ≡ true
nat_trans a b c h k = ground arith

-- Numbers that can be computed with, in units of 10 to the power of -6: the interface can be met.
instance abbrev pub micro_floats : FloatOps ℕ
micro_floats = record {
  fle = leb;
  fadd = ◌+◌;
  fsub = ◌-◌;
  fmul = λ a b. a * b / 1000000;
  fdiv = λ a b. a * 1000000 / b;
  of_nat = λ n. n * 1000000;
  hundredths = λ n. n * 10000;
  exp_neg = λ a. 1000000 * 1000000 / (1000000 + a);
  show = λ a. "";
  round = λ a places. a;
  fle_total = nat_total;
  fle_trans = nat_trans;
}
