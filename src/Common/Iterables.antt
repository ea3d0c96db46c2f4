-- ===== src/Common/Iterables.antt =====
-- libs/common/iterables.py: removing repeats from a sequence.
use honeypot_fyp.Prelude.{
  true, false, List, [], ◌∷◌, ◌++◌, map, ◌≡◌, refl, ◌∙◌, arith, Equality, member, Distinct, add_all,
  member-add_all, add_all-Distinct, append_assoc, append-nil, if◌then◌else◌, Bool-cases, inl, inr,
}

module _ {ℓ} {A : Type ℓ} ⦃e : Equality A⦄ where
  -- The loop over `ordered` is `add_all`, started on the empty list.
  unfoldable pub dedupe_preserve : List A → List A
  dedupe_preserve values = add_all [] values

  -- A result holds nothing twice, and holds exactly the values of the input.
  pub dedupe_preserve-Distinct : (values : List A) → Distinct (dedupe_preserve values)
  unfolding dedupe_preserve
  dedupe_preserve-Distinct values = add_all-Distinct [] values tt

  pub member-dedupe_preserve :
      (a : A) (values : List A) → member a (dedupe_preserve values) ≡ member a values
  unfolding dedupe_preserve
  member-dedupe_preserve a values = member-add_all a [] values

module _ {ℓ κ} {T : Type ℓ} {K : Type κ} ⦃e : Equality K⦄ where
  -- `seen` holds the markers, `ordered` the values that were kept.
  dedupe_loop : (T → K) → List K → List T → List T → List T
  dedupe_loop key seen ordered [] = ordered
  dedupe_loop key seen ordered (value ∷ rest) =
      let kept = dedupe_loop key (key value ∷ seen) (ordered ++ value ∷ []) rest in
      let skipped = dedupe_loop key seen ordered rest in
      if member (key value) seen then skipped else kept

  unfoldable pub dedupe_preserve_by : (T → K) → List T → List T
  unfolding dedupe_loop
  dedupe_preserve_by key values = dedupe_loop key [] [] values

  -- The first value of each key, in the order of the input: the independent description.
  unfoldable pub firsts : (T → K) → List K → List T → List T
  firsts key seen [] = []
  firsts key seen (value ∷ rest) =
      let kept = value ∷ firsts key (key value ∷ seen) rest in
      let skipped = firsts key seen rest in if member (key value) seen then skipped else kept

  dedupe_loop-eq-firsts :
      (key : T → K) (seen : List K) (ordered values : List T)
      → dedupe_loop key seen ordered values ≡ ordered ++ firsts key seen values
  unfolding dedupe_loop firsts
  dedupe_loop-eq-firsts key seen ordered [] = rw append-nil
  dedupe_loop-eq-firsts key seen ordered (value ∷ rest) =
      elim (Bool-cases (member (key value) seen)) [
        | inl old ↦ rw old (dedupe_loop-eq-firsts key seen ordered rest)
        | inr new ↦ rw new (
            dedupe_loop-eq-firsts key (key value ∷ seen) (ordered ++ value ∷ []) rest
            ∙ append_assoc ordered (value ∷ []) (firsts key (key value ∷ seen) rest))
      ]

  -- dedupe_preserve_by keeps the first value of each key, in the order of the input.
  pub dedupe_preserve_by-eq-firsts :
      (key : T → K) (values : List T) → dedupe_preserve_by key values ≡ firsts key [] values
  unfolding dedupe_preserve_by
  dedupe_preserve_by-eq-firsts key values = dedupe_loop-eq-firsts key [] [] values

  firsts-keys :
      (key : T → K) (seen : List K) (values : List T) (k : K)
      → member k seen ≡ false
      → member k (map key (firsts key seen values)) ≡ member k (map key values)
  unfolding firsts
  firsts-keys key seen [] k h = refl
  firsts-keys key seen (value ∷ rest) k h = elim (Bool-cases (member (key value) seen)) [
    | inl old ↦ ground (arith, e.equals_iff (key value) k, firsts-keys key seen rest k h)
    | inr new ↦
        ground (arith, e.equals_iff (key value) k, firsts-keys key (key value ∷ seen) rest k)
  ]

  firsts-Distinct :
      (key : T → K) (seen : List K) (values : List T)
      → Distinct (map key (firsts key seen values))
        × ((k : K) → member k seen ≡ true → member k (map key (firsts key seen values)) ≡ false)
  unfolding firsts
  firsts-Distinct key seen [] = (tt, λ k h. refl)
  firsts-Distinct key seen (value ∷ rest) = elim (Bool-cases (member (key value) seen)) [
    | inl old ↦ rw old (firsts-Distinct key seen rest)
    | inr new ↦
        let (distinct, unseen) = firsts-Distinct key (key value ∷ seen) rest in
        rw new (
          (unseen (key value) (ground (arith, e.equals_iff (key value) (key value))), distinct),
          λ k h. ground (arith, e.equals_iff (key value) k, unseen k),
        )
  ]

  -- No two of the values that dedupe_preserve_by keeps have the same key, and a key is kept exactly
  -- if the input has it.
  pub dedupe_preserve_by-keys :
      (key : T → K) (values : List T)
      → Distinct (map key (dedupe_preserve_by key values))
        × ((k : K) → member k (map key (dedupe_preserve_by key values)) ≡ member k (map key values))
  dedupe_preserve_by-keys key values =
      rw (dedupe_preserve_by-eq-firsts key values)
        ((firsts-Distinct key [] values).0, λ k. firsts-keys key [] values k refl)
