-- ===== src/Prior/Unseen.antt =====
-- What `recommend` of `FileAttackGroupTechniquePriorRepository` in services/controller/repository.py
-- recommends.
use honeypot_fyp.Prelude.{
  ℕ, zero, suc, String, Bool, true, false, ◌||◌, List, [], ◌∷◌, map, filter, is_empty, take, member,
  any, string_eq, eq_iff, ◌==◌, ◌≡◌, arith, All, Bool-cases, inl, inr,
}
use honeypot_fyp.Common.Dict.{Dict, put}
use honeypot_fyp.Common.Floats.{FloatOps, fle}
use honeypot_fyp.Common.Sorting.{All-sort_by}
use honeypot_fyp.Prior.Groups.{Group}
use honeypot_fyp.Prior.Recommend.{
  at_least_one, observed_set, wknn_weight, nearer, ranked_before, similar, neighbors, add_weight,
  candidate_scores, normalized, recommend,
}

module _ {ℓ κ} {A : Type ℓ} (P : A → Type κ) where
  All-filter : (p : A → Bool) (xs : List A) → All P xs → All P (filter p xs)
  All-filter p [] h = tt
  All-filter p (x ∷ xs) h = elim (Bool-cases (p x)) [
    | inl kept ↦ rw kept (h.0, All-filter p xs h.1)
    | inr dropped ↦ rw dropped (All-filter p xs h.1)
  ]

  All-take : (n : ℕ) (xs : List A) → All P xs → All P (take n xs)
  All-take zero xs h = tt
  All-take (suc n) [] h = tt
  All-take (suc n) (x ∷ xs) h = (h.0, All-take n xs h.1)

module _ {F : Type 0} where
  All-put :
      (Q : String → Type 0) (k : String) (v : F) (d : Dict F)
      → Q k
      → All (λ e. Q e.0) d
      → All (λ e. Q e.0) (put k v d)
  unfolding put
  All-put Q k v [] q h = (q, tt)
  All-put Q k v ((j, w) ∷ d) q h = elim (Bool-cases (j == k)) [
    | inl same ↦ rw same (h.0, h.1)
    | inr other ↦ rw other (h.0, All-put Q k v d q h.1)
  ]

-- The technique is not observed, and some group uses it.
abbrev pub IsUnseen : List Group → List String → String → Type 0
IsUnseen groups observed t =
    (member t observed ≡ false) × (any (λ g. member t g.techniques) groups ≡ true)

module _ {F : Type 0} where
  -- the techniques of a neighbor are of a group
  abbrev IsOfGroup : List Group → F × Group → Type 0
  IsOfGroup groups n =
      (t : String) → member t n.1.techniques ≡ true → any (λ g. member t g.techniques) groups ≡ true

similar-IsOfGroup :
    (F : Type 0) ⦃ops : FloatOps F⦄ (all_groups groups : List Group) (observed : List String)
    → ((t : String)
        → any (λ g. member t g.techniques) groups ≡ true
        → any (λ g. member t g.techniques) all_groups ≡ true)
    → All (IsOfGroup all_groups) (map (similar {F = F} observed) groups)
unfolding similar
similar-IsOfGroup F all_groups [] observed within = tt
similar-IsOfGroup F all_groups (g ∷ rest) observed within = (
  λ t there. within t (ground (arith, there)),
  similar-IsOfGroup F all_groups rest observed λ t there. within t (ground (arith, there)),
)

module _ {F : Type 0} ⦃ops : FloatOps F⦄ where
  All-add_weight :
      (Q : String → Type 0) (observed : List String) (weight : F) (techniques : List String)
      (scores : Dict F)
      → ((t : String) → member t techniques ≡ true → member t observed ≡ false → Q t)
      → All (λ e. Q e.0) scores
      → All (λ e. Q e.0) (add_weight observed weight techniques scores)
  unfolding add_weight
  All-add_weight Q observed weight [] scores q h = h
  All-add_weight Q observed weight (t ∷ rest) scores q h =
      All-add_weight Q observed weight rest _ (λ u there unseen. q u (ground (arith, there)) unseen)
        (elim (Bool-cases (member t observed)) [
          | inl seen ↦ rw seen h
          | inr unseen ↦
              rw unseen (All-put Q t _ scores (q t (ground (arith, eq_iff t t)) unseen) h)
        ])

  All-candidate_scores :
      (groups : List Group) (observed : List String) (ns : List (F × Group)) (scores : Dict F)
      → All (IsOfGroup groups) ns
      → All (λ e. IsUnseen groups observed e.0) scores
      → All (λ e. IsUnseen groups observed e.0) (candidate_scores observed ns scores)
  unfolding candidate_scores
  All-candidate_scores groups observed [] scores ns h = h
  All-candidate_scores groups observed ((similarity, g) ∷ rest) scores ns h =
      All-candidate_scores groups observed rest _ ns.1
        (elim (Bool-cases (fle (wknn_weight similarity) (ops.hundredths 0))) [
          | inl far ↦ rw far h
          | inr near ↦ rw near (
              All-add_weight (IsUnseen groups observed) observed (wknn_weight similarity)
                g.techniques scores (λ t there unseen. (unseen, ns.0 t there)) h)
        ])

  All-renamed :
      (Q : String → Type 0) (f : F → F) (scores : Dict F)
      → All (λ e. Q e.0) scores
      → All (λ (e : String × F). Q e.0) (map (λ (e : String × F). (e.0, f e.1)) scores)
  All-renamed Q f [] h = tt
  All-renamed Q f (e ∷ rest) h = (h.0, All-renamed Q f rest h.1)

  -- Every technique that recommend gives is a technique of some group, and is not among the
  -- observed ones, for any groups, number of neighbors and threshold.
  pub recommend-IsUnseen :
      (groups : List Group) (techniques : List String) (top_k : ℕ) (threshold : F)
      → All
          (λ e. IsUnseen groups (observed_set techniques) e.0)
          (recommend groups techniques top_k threshold)
  unfolding recommend normalized neighbors
  recommend-IsUnseen groups techniques top_k threshold =
      let observed = observed_set techniques in
      let P = λ (e : String × F). IsUnseen groups observed e.0 in
      elim (Bool-cases (is_empty observed || is_empty groups)) [
        | inl nothing ↦ rw nothing tt
        | inr something ↦ rw something (
            All-sort_by P ranked_before _ (
              All-renamed (IsUnseen groups observed) _ _ (
                All-filter P _ _ (
                  All-candidate_scores groups observed (neighbors groups observed top_k) []
                    (All-take (IsOfGroup groups) (at_least_one top_k) _ (
                      All-sort_by (IsOfGroup groups) nearer _ (
                        All-filter (IsOfGroup groups) _ _
                          (similar-IsOfGroup F groups groups observed λ t there. there))))
                    tt))))
      ]
