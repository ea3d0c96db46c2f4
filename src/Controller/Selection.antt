-- ===== src/Controller/Selection.antt =====
-- What `min(candidates, key=_candidate_order_key)` of services/controller/domain.py gives.
use honeypot_fyp.Prelude.{
  ℕ, String, Bool, true, false, not, List, [], ◌∷◌, some, ◌≡◌, sym, inl, inr, arith, ltb, nat_beq,
  if◌then◌else◌, All, Bool-cases,
}
use mathlib.Core.Option.{some-injective}
use honeypot_fyp.Common.Floats.{FloatOps, flt, feq}
use honeypot_fyp.Common.Text.Order.{text_lt, text_lt_asym, text_le_trans}
use honeypot_fyp.Controller.Scores.{CandidateScore}
use honeypot_fyp.Controller.Order.{
  structural_priority_rank, exposed_asset_id, comes_before, min_loop, select,
}

-- One key of an order before the keys that follow it: `same` and `less` of two elements decide, or the
-- rest does where they are the same.
abbrev layer : Bool → Bool → Bool → Bool
layer same less rest = if not same then less else rest

module _ {F : Type 0} ⦃ops : FloatOps F⦄ where
  float_layer :
      (x y z : F) (p q r : Bool)
      → layer (feq x y) (flt y x) p ≡ true
      → layer (feq z y) (flt y z) q ≡ false
      → (p ≡ true → q ≡ false → r ≡ true)
      → layer (feq x z) (flt z x) r ≡ true
  float_layer x y z p q r h k step = ground (
    arith,
    ops.fle_total x y,
    ops.fle_total y z,
    ops.fle_total x z,
    ops.fle_trans x y z,
    ops.fle_trans x z y,
    ops.fle_trans y x z,
    ops.fle_trans y z x,
    ops.fle_trans z x y,
    ops.fle_trans z y x,
  )

  float_asym :
      (x y : F) (p q : Bool)
      → layer (feq x y) (flt y x) p ≡ true
      → (p ≡ true → q ≡ false)
      → layer (feq y x) (flt x y) q ≡ false
  float_asym x y p q h step = ground (arith, ops.fle_total x y)

nat_asym :
    (x y : ℕ) (p q : Bool)
    → layer (nat_beq x y) (ltb y x) p ≡ true
    → (p ≡ true → q ≡ false)
    → layer (nat_beq y x) (ltb x y) q ≡ false
nat_asym x y p q h step = ground arith

nat_layer :
    (x y z : ℕ) (p q r : Bool)
    → layer (nat_beq x y) (ltb y x) p ≡ true
    → layer (nat_beq z y) (ltb y z) q ≡ false
    → (p ≡ true → q ≡ false → r ≡ true)
    → layer (nat_beq x z) (ltb z x) r ≡ true
nat_layer x y z p q r h k step = ground arith

text_before : (a b d : String) → text_lt a b ≡ true → text_lt d b ≡ false → text_lt a d ≡ true
text_before a b d h k =
    ground (arith, text_le_trans d a b, text_le_trans b d a, text_le_trans b a d, text_lt_asym a b)

module _ {F : Type 0} ⦃ops : FloatOps F⦄ where
  pub before_asym : (a b : CandidateScore F) → comes_before a b ≡ true → comes_before b a ≡ false
  unfolding comes_before
  before_asym a b h = nat_asym (structural_priority_rank a) (structural_priority_rank b) _ _ h λ h.
      float_asym a.expected_technique_gain b.expected_technique_gain _ _ h λ h.
        nat_asym a.matched_dependency_marker_count b.matched_dependency_marker_count _ _ h λ h.
          float_asym a.telemetry_value b.telemetry_value _ _ h
            λ h. text_lt_asym (exposed_asset_id a) (exposed_asset_id b) h

  before_not_after :
      (a b d : CandidateScore F)
      → comes_before a b ≡ true
      → comes_before d b ≡ false
      → comes_before a d ≡ true
  unfolding comes_before
  before_not_after a b d h k =
      nat_layer (structural_priority_rank a) (structural_priority_rank b)
        (structural_priority_rank d) _ _ _ h k
        λ h k.
          float_layer a.expected_technique_gain b.expected_technique_gain d.expected_technique_gain
            _ _ _ h k
            λ h k.
              nat_layer a.matched_dependency_marker_count b.matched_dependency_marker_count
                d.matched_dependency_marker_count _ _ _ h k
                λ h k.
                  float_layer a.telemetry_value b.telemetry_value d.telemetry_value _ _ _ h k λ h k.
                    text_before (exposed_asset_id a) (exposed_asset_id b) (exposed_asset_id d) h k

-- The list has `c` as the first of its least elements: what stands before it comes strictly after it in
-- the order, and nothing that follows comes before it.
pub data IsFirstLeast {F : Type 0} ⦃ops : FloatOps F⦄
    : List (CandidateScore F) → CandidateScore F → Type 0 where
  here :
      (c : CandidateScore F) (rest : List (CandidateScore F))
      → All (λ d. comes_before d c ≡ false) rest
      → IsFirstLeast (c ∷ rest) c
  there :
      (x c : CandidateScore F) (rest : List (CandidateScore F))
      → comes_before c x ≡ true
      → IsFirstLeast rest c
      → IsFirstLeast (x ∷ rest) c

module _ {F : Type 0} ⦃ops : FloatOps F⦄ where
  skip_greater :
      (best c r : CandidateScore F) (rest : List (CandidateScore F))
      → comes_before c best ≡ false
      → IsFirstLeast (best ∷ rest) r
      → IsFirstLeast (best ∷ c ∷ rest) r
  skip_greater best c _ rest k (here _ _ h) = here best (c ∷ rest) (k, h)
  skip_greater best c r rest k (there _ _ _ h f) =
      there best r (c ∷ rest) h (there c r rest (before_not_after r best c h k) f)

  skip_replaced :
      (best c r : CandidateScore F) (rest : List (CandidateScore F))
      → comes_before c best ≡ true
      → IsFirstLeast (c ∷ rest) r
      → IsFirstLeast (best ∷ c ∷ rest) r
  skip_replaced best c _ rest k (here _ _ h) = there best c (c ∷ rest) k (here c rest h)
  skip_replaced best c r rest k (there _ _ _ h f) =
      there best r (c ∷ rest) (before_not_after r c best h (before_asym c best k))
        (there c r rest h f)

  min_loop-IsFirstLeast :
      (best : CandidateScore F) (rest : List (CandidateScore F))
      → IsFirstLeast (best ∷ rest) (min_loop best rest)
  unfolding min_loop
  min_loop-IsFirstLeast best [] = here best [] tt
  min_loop-IsFirstLeast best (c ∷ rest) = elim (Bool-cases (comes_before c best)) [
    | inl before ↦
        rw before
          (skip_replaced best c (min_loop c rest) rest before (min_loop-IsFirstLeast c rest))
    | inr after ↦
        rw after
          (skip_greater best c (min_loop best rest) rest after (min_loop-IsFirstLeast best rest))
  ]

  -- Where a candidate is selected, every candidate before it comes strictly after it in the order
  -- of the keys, and no candidate after it comes before it: it is the first least one, on any
  -- floats whose <= is a total preorder.
  pub select-IsFirstLeast :
      (candidates : List (CandidateScore F)) (c : CandidateScore F)
      → select candidates ≡ some c
      → IsFirstLeast candidates c
  unfolding select
  select-IsFirstLeast [] c h = cc
  select-IsFirstLeast (best ∷ rest) c h =
      rw (sym (some-injective (min_loop best rest) c h)) (min_loop-IsFirstLeast best rest)
