-- ===== src/Profiler/Shown.antt =====
-- What a list of a snapshot of services/profiler/domain.py shows of the evidence that is recent.
use honeypot_fyp.Prelude.{
  ℕ, String, Bool, false, not, ◌&&◌, ◌+◌, fun_ext, List, [], ◌∷◌, Option, none, some, any, filter,
  member, member-append, Distinct, any-filter, ltb, ◌==◌, string_eq, nat_eq, option_eq, ◌≡◌, refl,
  ap, ◌∙◌, arith,
}
use honeypot_fyp.Common.Dict.{get}
use honeypot_fyp.Common.Iterables.{
  dedupe_preserve, dedupe_preserve-Distinct, member-dedupe_preserve,
}
use honeypot_fyp.Common.Json.{as_text, Json, null, bool, num, text, arr, obj}
use honeypot_fyp.Common.Sorting.{sort_by, any-sort_by}
use honeypot_fyp.Contracts.Evidence.{TechniqueEvidence}
use honeypot_fyp.Profiler.Profile.{
  earlier, is_recent, present, texts_of, is_from, values_of, http_values, source_ref_values,
}

module _ {F : Type 0} where
  member-present :
      (key : TechniqueEvidence F → Option String) (k : String) (es : List (TechniqueEvidence F))
      → member k (present key es) ≡ any (λ e. key e == some k) es
  unfolding present
  member-present key k [] = refl
  member-present key k (e ∷ rest) = ground (arith, member-present key k rest)

  member-values_of :
      (key v : String) (es : List (TechniqueEvidence F))
      → member v (values_of key es) ≡ any (λ e. member v (texts_of (get key e.source_ref))) es
  unfolding values_of
  member-values_of key v [] = refl
  member-values_of key v (e ∷ rest) = ground (
    arith,
    member-values_of key v rest,
    member-append v (texts_of (get key e.source_ref)) (values_of key rest),
  )

  -- No older than the window before the newest time.
  abbrev pub in_window : ℕ → ℕ → TechniqueEvidence F → Bool
  in_window window latest e = not (ltb (e.ts + window) latest)

  is_recent-in_window :
      (window latest : ℕ) (e : TechniqueEvidence F)
      → is_recent window latest e ≡ in_window window latest e
  unfolding is_recent
  is_recent-in_window window latest e = ground arith

  is_from-as_text :
      (source : String) (e : TechniqueEvidence F)
      → is_from source e ≡ (as_text (get "source" e.source_ref) == some source)
  unfolding is_from
  is_from-as_text source e = by_value (get "source" e.source_ref)
    where
      by_value :
          (o : Option (Json F))
          → elim o [ some (text s) ↦ s == source | _ ↦ false ] ≡ (as_text o == some source)
      by_value none = refl
      by_value (some null) = refl
      by_value (some (bool b)) = refl
      by_value (some (num x)) = refl
      by_value (some (text s)) = refl
      by_value (some (arr vs)) = refl
      by_value (some (obj fs)) = refl

  -- What a list of texts shows, against the stored evidence that is recent.
  abbrev pub Shows :
      List String
      → (String → TechniqueEvidence F → Bool)
      → ℕ
      → ℕ
      → List (TechniqueEvidence F)
      → Type 0
  Shows values test window latest stored =
      Distinct values
      × ((v : String) → member v values ≡ any (λ e. in_window window latest e && test v e) stored)

  abbrev pub has_technique : String → TechniqueEvidence F → Bool
  has_technique t e = e.tech_id == some t

  abbrev pub has_tactic : String → TechniqueEvidence F → Bool
  has_tactic t e = e.group == some t

  abbrev pub has_http : String → String → String → TechniqueEvidence F → Bool
  has_http source key v e =
      as_text (get "source" e.source_ref) == some source
      && member v (texts_of (get key e.source_ref))

  module _ (window latest : ℕ) (stored : List (TechniqueEvidence F)) where
    recent_any :
        (p : TechniqueEvidence F → Bool)
        → any p (filter (is_recent window latest) (sort_by earlier stored))
          ≡ any (λ e. in_window window latest e && p e) stored
    recent_any p =
        any-filter p (is_recent window latest) (sort_by earlier stored)
        ∙ any-sort_by (λ e. is_recent window latest e && p e) earlier stored
        ∙ ap (λ recent. any (λ e. recent e && p e) stored)
            (fun_ext (is_recent-in_window window latest))

    pub present-Shows :
        (key : TechniqueEvidence F → Option String)
        → Shows
            (dedupe_preserve
              (present key (filter (is_recent window latest) (sort_by earlier stored))))
            (λ v e. key e == some v)
            window
            latest
            stored
    present-Shows key = (
      dedupe_preserve-Distinct {A = String} _,
      λ v. member-dedupe_preserve v _ ∙ member-present key v _ ∙ recent_any (λ e. key e == some v),
    )

    pub http_values-Shows :
        (source key : String)
        → Shows
            (http_values source key (filter (is_recent window latest) (sort_by earlier stored)))
            (has_http source key)
            window
            latest
            stored
    unfolding http_values
    http_values-Shows source key =
        let recent = filter (is_recent window latest) (sort_by earlier stored) in
        let values = values_of key (filter (is_from source) recent) in
        let holds =
          λ (v : String) (e : TechniqueEvidence F). member v (texts_of (get key e.source_ref)) in
        (
          dedupe_preserve-Distinct values,
          λ v.
              member-dedupe_preserve v values
              ∙ member-values_of key v (filter (is_from source) recent)
              ∙ any-filter (holds v) (is_from source) recent
              ∙ ap (λ here. any (λ e. here e && holds v e) recent)
                  (fun_ext (is_from-as_text source))
              ∙ recent_any (has_http source key v),
        )

    pub source_ref_values-Shows :
        (key : String)
        → Shows
            (source_ref_values key (filter (is_recent window latest) (sort_by earlier stored)))
            (λ v e. member v (texts_of (get key e.source_ref)))
            window
            latest
            stored
    unfolding source_ref_values
    source_ref_values-Shows key =
        let recent = filter (is_recent window latest) (sort_by earlier stored) in
        (
          dedupe_preserve-Distinct (values_of key recent),
          λ v.
              member-dedupe_preserve v (values_of key recent)
              ∙ member-values_of key v recent
              ∙ recent_any (λ e. member v (texts_of (get key e.source_ref))),
        )
