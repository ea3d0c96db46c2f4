-- ===== src/Common/Table.antt =====
-- A Python `dict` whose keys are of any type with `==`: pairs in the order of insertion.
use honeypot_fyp.Prelude.{
  List, [], ◌∷◌, Option, none, some, ◌≡◌, refl, ap, arith, Equality, ◌==◌, if◌then◌else◌,
  Bool-cases, inl, inr,
}

module _ {ℓ κ} {K : Type κ} {V : Type ℓ} ⦃e : Equality K⦄ where
  -- `d.get(k)`
  unfoldable pub find : K → List (K × V) → Option V
  find k [] = none
  find k ((j, v) ∷ d) = if j == k then some v else find k d

  -- `d[k] = v`
  unfoldable pub store : K → V → List (K × V) → List (K × V)
  store k v [] = (k, v) ∷ []
  store k v ((j, w) ∷ d) = if j == k then (j, v) ∷ d else (j, w) ∷ store k v d

  pub find-store :
      (k j : K) (v : V) (d : List (K × V))
      → find j (store k v d) ≡ (if k == j then some v else find j d)
  unfolding find store
  find-store k j v [] = refl
  find-store k j v ((i, w) ∷ d) =
      ground (arith, e.equals_iff k j, e.equals_iff i k, e.equals_iff i j, find-store k j v d)

  -- A write of what is there already changes nothing.
  pub store_same : (k : K) (v : V) (d : List (K × V)) → find k d ≡ some v → store k v d ≡ d
  unfolding find store
  store_same k v [] h = cc
  store_same k v ((j, w) ∷ d) h = elim (Bool-cases (j == k)) [
    | inl here ↦ rw here (ground arith)
    | inr other ↦ rw other (ap (◌∷◌ (j, w)) (store_same k v d (rw other at h)))
  ]
