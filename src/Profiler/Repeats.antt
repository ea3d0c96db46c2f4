-- ===== src/Profiler/Repeats.antt =====
-- Repeated evidence in `_summarize_dimension` of services/profiler/domain.py.
use mathlib.Core.Option.{some-injective}
use honeypot_fyp.Prelude.{
  String, Bool, true, ◌&&◌, List, [], ◌∷◌, ◌++◌, Option, none, some, any, ◌==◌, string_eq,
  option_eq, option_beq_iff, ◌≡◌, refl, sym, ap, ◌∙◌, arith, Bool-cases, Option-cases, inl, inr,
  &&-eq-true, eq_iff, any-append, beq_refl,
}
use honeypot_fyp.Common.Dict.{Dict}
use honeypot_fyp.Common.Table.{find, store, find-store, store_same}
use honeypot_fyp.Common.Floats.{FloatOps, fmax, fle}
use honeypot_fyp.Common.Json.{Host}
use honeypot_fyp.Contracts.Evidence.{TechniqueEvidence}
use honeypot_fyp.Profiler.Summary.{
  Fingerprint, fingerprint_eq, fingerprint_beq_iff, confidence_fingerprint, or_zero, weigh,
  confidence, grouped, confidences, summarize_dimension,
}

module _ {F : Type 0} ⦃ops : FloatOps F⦄ where
  fle_refl : (a : F) → fle a a ≡ true
  fle_refl a = ground (arith, ops.fle_total a a)

  fmax_kept : (a b : F) → fle b a ≡ true → fmax a b ≡ a
  fmax_kept a b h = rw h refl

  le-fmax_left : (a b c : F) → fle c a ≡ true → fle c (fmax a b) ≡ true
  le-fmax_left a b c h = ground (arith, ops.fle_total a b, ops.fle_trans c a b)

  le-fmax_right : (a b c : F) → fle c b ≡ true → fle c (fmax a b) ≡ true
  le-fmax_right a b c h = ground (arith, ops.fle_total a b, ops.fle_trans c b a)

  module _ (host : Host F) (e : TechniqueEvidence F) where
    -- `x` has the fingerprint of `e`, and weighs as much at least
    abbrev pub covers : TechniqueEvidence F → Bool
    covers x =
        confidence_fingerprint host x == confidence_fingerprint host e && fle e.weight x.weight

    abbrev Weighs : List (Fingerprint × F) → Type 0
    Weighs weights =
        (w : F) × (find (confidence_fingerprint host e) weights ≡ some w) × (fle e.weight w ≡ true)

    abbrev stored : List (Fingerprint × F) → TechniqueEvidence F → List (Fingerprint × F)
    stored weights x =
        let fingerprint = confidence_fingerprint host x in
        store fingerprint (fmax (or_zero (find fingerprint weights)) x.weight) weights

    stored-Weighs :
        (weights : List (Fingerprint × F)) (x : TechniqueEvidence F)
        → Weighs weights
        → Weighs (stored weights x)
    stored-Weighs weights x (w, h, below) =
        elim (Bool-cases (confidence_fingerprint host x == confidence_fingerprint host e)) [
          | inl same ↦
              let there =
                ap (λ f. find f weights)
                  ((fingerprint_beq_iff (confidence_fingerprint host x)
                      (confidence_fingerprint host e)).0
                    same)
                ∙ h in
              (
                fmax w x.weight,
                rw (find-store _ (confidence_fingerprint host e) _ weights, same, there) refl,
                le-fmax_left w x.weight e.weight below,
              )
          | inr other ↦
              (w, rw (find-store _ (confidence_fingerprint host e) _ weights, other) h, below)
        ]

    covers-Weighs :
        (weights : List (Fingerprint × F)) (x : TechniqueEvidence F)
        → covers x ≡ true
        → Weighs (stored weights x)
    covers-Weighs weights x h =
        let (same, below) =
          &&-eq-true (confidence_fingerprint host x == confidence_fingerprint host e)
            (fle e.weight x.weight) h in
        (
          fmax (or_zero (find (confidence_fingerprint host x) weights)) x.weight,
          rw (find-store _ (confidence_fingerprint host e) _ weights, same) refl,
          le-fmax_right _ x.weight e.weight below,
        )

    weigh_kept :
        (weights : List (Fingerprint × F)) (es : List (TechniqueEvidence F))
        → Weighs weights
        → weigh host weights (es ++ e ∷ []) ≡ weigh host weights es
    unfolding weigh
    weigh_kept weights [] (w, h, below) =
        rw h (store_same _ _ weights (h ∙ ap some (sym (fmax_kept w e.weight below))))
    weigh_kept weights (x ∷ rest) v = weigh_kept (stored weights x) rest (stored-Weighs weights x v)

    weigh_repeat :
        (weights : List (Fingerprint × F)) (es : List (TechniqueEvidence F))
        → any covers es ≡ true
        → weigh host weights (es ++ e ∷ []) ≡ weigh host weights es
    unfolding weigh
    weigh_repeat weights [] h = cc
    weigh_repeat weights (x ∷ rest) h = elim (Bool-cases (covers x)) [
      | inl here ↦ weigh_kept (stored weights x) rest (covers-Weighs weights x here)
      | inr later ↦ weigh_repeat (stored weights x) rest (rw later at h)
    ]

    confidence_repeat :
        (es : List (TechniqueEvidence F))
        → any covers es ≡ true
        → confidence host (es ++ e ∷ []) ≡ confidence host es
    unfolding confidence
    confidence_repeat es h = rw (weigh_repeat [] es h, confidence) refl

    module _ (key_fn : TechniqueEvidence F → Option String) where
      -- `x` is evidence of the same key, and covers `e`
      abbrev pub repeats : TechniqueEvidence F → Bool
      repeats x = key_fn x == key_fn e && covers x

      abbrev bucket :
          Option (List (TechniqueEvidence F)) → TechniqueEvidence F → List (TechniqueEvidence F)
      bucket o x = elim o [ some es ↦ es ++ x ∷ [] | none ↦ x ∷ [] ]

      abbrev placed :
          Option String
          → TechniqueEvidence F
          → Dict (List (TechniqueEvidence F))
          → Dict (List (TechniqueEvidence F))
      placed o x buckets = elim o [
        | some key ↦ store key (bucket (find key buckets) x) buckets
        | none ↦ buckets
      ]

      grouped-append :
          (buckets : Dict (List (TechniqueEvidence F))) (es : List (TechniqueEvidence F))
          → grouped key_fn buckets (es ++ e ∷ []) ≡ placed (key_fn e) e (grouped key_fn buckets es)
      unfolding grouped
      grouped-append buckets [] = refl
      grouped-append buckets (x ∷ rest) = grouped-append (placed (key_fn x) x buckets) rest

      abbrev Holds : String → Dict (List (TechniqueEvidence F)) → Type 0
      Holds key buckets =
          (es : List (TechniqueEvidence F)) × (find key buckets ≡ some es) × (any covers es ≡ true)

      placed-Holds :
          (key : String) (o : Option String) (x : TechniqueEvidence F)
          (buckets : Dict (List (TechniqueEvidence F)))
          → Holds key buckets
          → Holds key (placed o x buckets)
      placed-Holds key none x buckets h = h
      placed-Holds key (some k) x buckets (es, h, has) = elim (Bool-cases (k == key)) [
        | inl same ↦
            let there = ap (λ j. find j buckets) ((eq_iff k key).0 same) ∙ h in
            (
              es ++ x ∷ [],
              rw (find-store k key (bucket (find k buckets) x) buckets, same, there) refl,
              rw (any-append covers es (x ∷ []), has) refl,
            )
        | inr other ↦ (es, rw (find-store k key (bucket (find k buckets) x) buckets, other) h, has)
      ]

      bucket-covers :
          (o : Option (List (TechniqueEvidence F))) (x : TechniqueEvidence F)
          → covers x ≡ true
          → any covers (bucket o x) ≡ true
      bucket-covers none x h = rw h refl
      bucket-covers (some es) x h = rw (any-append covers es (x ∷ []), h) (ground arith)

      placed_here :
          (key : String) (x : TechniqueEvidence F) (buckets : Dict (List (TechniqueEvidence F)))
          → covers x ≡ true
          → Holds key (placed (some key) x buckets)
      placed_here key x buckets h = (
        bucket (find key buckets) x,
        rw (find-store key key (bucket (find key buckets) x) buckets, beq_refl key) refl,
        bucket-covers (find key buckets) x h,
      )

      grouped-Holds :
          (key : String) (buckets : Dict (List (TechniqueEvidence F)))
          (es : List (TechniqueEvidence F))
          → Holds key buckets
          → Holds key (grouped key_fn buckets es)
      unfolding grouped
      grouped-Holds key buckets [] h = h
      grouped-Holds key buckets (x ∷ rest) h =
          grouped-Holds key (placed (key_fn x) x buckets) rest
            (placed-Holds key (key_fn x) x buckets h)

      grouped_repeat :
          (key : String) (buckets : Dict (List (TechniqueEvidence F)))
          (es : List (TechniqueEvidence F))
          → key_fn e ≡ some key
          → any repeats es ≡ true
          → Holds key (grouped key_fn buckets es)
      unfolding grouped
      grouped_repeat key buckets [] k h = cc
      grouped_repeat key buckets (x ∷ rest) k h = elim (Bool-cases (repeats x)) [
        | inl here ↦
            let (same, covered) = &&-eq-true (key_fn x == key_fn e) (covers x) here in
            let of_key = (option_beq_iff (key_fn x) (key_fn e)).0 same ∙ k in
            grouped-Holds key (placed (key_fn x) x buckets) rest
              (rw of_key (placed_here key x buckets covered))
        | inr later ↦ grouped_repeat key (placed (key_fn x) x buckets) rest k (rw later at h)
      ]

  confidences-store :
      (host : Host F) (key : String) (es es' : List (TechniqueEvidence F))
      (buckets : Dict (List (TechniqueEvidence F)))
      → find key buckets ≡ some es
      → confidence host es' ≡ confidence host es
      → confidences host (store key es' buckets) ≡ confidences host buckets
  unfolding confidences find store
  confidences-store host key es es' [] h c = cc
  confidences-store host key es es' ((k, fs) ∷ rest) h c = elim (Bool-cases (k == key)) [
    | inl here ↦
        let there : fs ≡ es = some-injective fs es (rw here at h) in
        rw here (ap (λ v. (k, v) ∷ confidences host rest) (c ∙ ap (confidence host) (sym there)))
    | inr other ↦ rw other (
        ap (◌∷◌ (k, confidence host fs)) (confidences-store host key es es' rest (rw other at h) c))
  ]

  -- Evidence at the end that has the key and the fingerprint of other evidence, and weighs no more
  -- than that, changes no confidence: repeated probes do not inflate a profile. This holds for any
  -- floats whose <= is a total preorder.
  pub summarize_dimension_repeat :
      (host : Host F) (key_fn : TechniqueEvidence F → Option String)
      (es : List (TechniqueEvidence F)) (e : TechniqueEvidence F)
      → any (repeats host e key_fn) es ≡ true
      → summarize_dimension host key_fn (es ++ e ∷ []) ≡ summarize_dimension host key_fn es
  unfolding summarize_dimension
  summarize_dimension_repeat host key_fn es e h =
      rw (grouped-append host e key_fn [] es) (elim (Option-cases (key_fn e)) [
        | inl nothing ↦ rw nothing refl
        | inr (key, k) ↦
            let (items, there, covered) = grouped_repeat host e key_fn key [] es k h in
            rw (k, there)
              (confidences-store host key items (items ++ e ∷ []) _ there
                (confidence_repeat host e items covered))
      ])
