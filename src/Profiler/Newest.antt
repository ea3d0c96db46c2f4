-- ===== src/Profiler/Newest.antt =====
-- The newest of the stored evidence, which dates the snapshot of `_rebuild_profile` of
-- services/profiler/domain.py.
use mathlib.Core.Option.{some-injective}
use honeypot_fyp.Prelude.{
  ℕ, ◌≤◌, String, true, false, List, [], ◌∷◌, none, some, any, All, All-map, filter, is_empty, ltb,
  ◌==◌, string_eq, nat_eq, option_eq, ◌≡◌, refl, sym, ap, ◌∙◌, arith, Bool-cases, Option-cases, inl,
  inr,
}
use honeypot_fyp.Common.Floats.{FloatOps}
use honeypot_fyp.Common.Json.{Host}
use honeypot_fyp.Common.Sorting.{sort_by, insert_by, last, All-insert_by, any-sort_by}
use honeypot_fyp.Contracts.Evidence.{TechniqueEvidence}
use honeypot_fyp.Profiler.Profile.{earlier, is_recent, snapshot_at, rebuild}

module _ {F : Type 0} where
  abbrev IsAscending : List (TechniqueEvidence F) → Type 0
  IsAscending [] = Unit
  IsAscending (x ∷ xs) = All (λ y. x.ts ≤ y.ts) xs × IsAscending xs

  insert_by-IsAscending :
      (a : TechniqueEvidence F) (xs : List (TechniqueEvidence F))
      → IsAscending xs
      → IsAscending (insert_by earlier a xs)
  unfolding insert_by earlier
  insert_by-IsAscending a [] h = (tt, tt)
  insert_by-IsAscending a (b ∷ xs) h = elim (Bool-cases (ltb b.ts a.ts)) [
    | inl later ↦ rw later (
      All-insert_by (λ y. b.ts ≤ y.ts) earlier a xs (ground arith) h.0,
      insert_by-IsAscending a xs h.1,
    )
    | inr here ↦
        let below : a.ts ≤ b.ts = ground arith in
        rw here ((below, All-map _ (λ y. a.ts ≤ y.ts) xs (λ y le. omega arith) h.0), h)
  ]

  pub sort_by-IsAscending : (xs : List (TechniqueEvidence F)) → IsAscending (sort_by earlier xs)
  unfolding sort_by
  sort_by-IsAscending [] = tt
  sort_by-IsAscending (x ∷ xs) = insert_by-IsAscending x _ (sort_by-IsAscending xs)

  -- the last of an ascending list is of the newest time
  pub last_newest :
      (xs : List (TechniqueEvidence F)) (l : TechniqueEvidence F)
      → IsAscending xs
      → last xs ≡ some l
      → (any (λ e. ltb l.ts e.ts) xs ≡ false)
        × (any (λ e. e.ts == l.ts) xs ≡ true)
        × ((n : ℕ) → All (λ y. n ≤ y.ts) xs → n ≤ l.ts)
  unfolding last
  last_newest [] l h e = cc
  last_newest (x ∷ []) l h e =
      let same : x.ts ≡ l.ts = ap (λ r. r.ts) (some-injective x l e) in
      (ground arith, ground arith, λ n all. omega arith)
  last_newest (x ∷ y ∷ rest) l h e =
      let (none_later, newest, above) = last_newest (y ∷ rest) l h.1 e in
      let first : x.ts ≤ l.ts = above x.ts h.0 in
      (ground arith, ground arith, λ n all. above n all.1)

module _ {F : Type 0} ⦃ops : FloatOps F⦄ (host : Host F) (window now : ℕ)
    (attacker_key : String) where
  newest_missing : (es : List (TechniqueEvidence F)) → last es ≡ none → any (λ e. true) es ≡ false
  unfolding last
  newest_missing [] h = refl
  newest_missing (x ∷ []) h = cc
  newest_missing (x ∷ y ∷ rest) h = cc (newest_missing (y ∷ rest) h)

  nonempty : (es : List (TechniqueEvidence F)) → is_empty es ≡ false → any (λ e. true) es ≡ true
  nonempty [] h = cc
  nonempty (x ∷ rest) h = refl

  -- With evidence, the snapshot is that of the window before the newest.
  pub rebuild_nonempty :
      (stored : List (TechniqueEvidence F))
      → is_empty stored ≡ false
      → (l : TechniqueEvidence F) × (last (sort_by earlier stored) ≡ some l)
        × (rebuild host window now attacker_key stored
            ≡ snapshot_at host window attacker_key l.ts
                (filter (is_recent window l.ts) (sort_by earlier stored)))
  unfolding rebuild
  rebuild_nonempty stored h = elim (Option-cases (last (sort_by earlier stored))) [
    | inl nothing ↦ absurd (
        clash (
          sym (nonempty stored h)
          ∙ sym (any-sort_by (λ e. true) earlier stored)
          ∙ newest_missing (sort_by earlier stored) nothing))
    | inr (l, found) ↦ (l, found, rw (found, rebuild) refl)
  ]
    where
      clash : true ≡ false → ⊥
      clash e = cc
