-- ===== src/Prior/Recommend.antt =====
-- `recommend` of `FileAttackGroupTechniquePriorRepository` in services/controller/repository.py: the
-- techniques of the groups that are nearest to what is observed.
use honeypot_fyp.Prelude.{
  ℕ, ◌+◌, ◌*◌, String, Bool, not, ◌||◌, List, [], ◌∷◌, map, filter, is_empty, length, take, member,
  string_eq, if◌then◌else◌, leb,
}
use honeypot_fyp.Common.Dict.{Dict, get_or, put}
use honeypot_fyp.Common.Floats.{FloatOps, fle, flt, feq}
use honeypot_fyp.Common.Iterables.{dedupe_preserve}
use honeypot_fyp.Common.Text.{is_blank}
use honeypot_fyp.Common.Sorting.{sort_by}
use honeypot_fyp.Common.Text.Order.{text_lt}
use honeypot_fyp.Controller.Records.{TechniquePriorRepository}
use honeypot_fyp.Prior.Groups.{Group, Prior}

-- `max(1, top_k)`
abbrev pub at_least_one : ℕ → ℕ
at_least_one k = if leb 1 k then k else 1

-- `{item for item in observed_techniques if item}`
unfoldable pub observed_set : List String → List String
observed_set techniques = dedupe_preserve (filter (λ t. not (is_blank t)) techniques)

module _ {F : Type 0} ⦃ops : FloatOps F⦄ where
  -- `_dice_similarity`, of two lists without repeats
  unfoldable pub dice_similarity : List String → List String → F
  dice_similarity left right =
      if is_empty left || is_empty right
      then ops.hundredths 0
      else ops.fdiv (ops.of_nat (2 * length (filter (λ t. member t right) left)))
          (ops.of_nat (length left + length right))

  -- `_wknn_weight`
  unfoldable pub wknn_weight : F → F
  wknn_weight similarity =
      if fle similarity (ops.hundredths 0)
      then ops.hundredths 0
      else if fle (ops.fsub (ops.hundredths 100) similarity) (ops.hundredths 0)
      then ops.hundredths 0
      else ops.fdiv (ops.hundredths 100) (ops.fsub (ops.hundredths 100) similarity)

  -- the keys (-similarity, name)
  unfoldable pub nearer : F × Group → F × Group → Bool
  unfolding text_lt
  nearer a b = if not (feq a.0 b.0) then flt b.0 a.0 else text_lt a.1.name b.1.name

  -- the keys (-support, technique)
  unfoldable pub ranked_before : String × F → String × F → Bool
  unfolding text_lt
  ranked_before a b = if not (feq a.1 b.1) then flt b.1 a.1 else text_lt a.0 b.0

  unfoldable pub similar : List String → Group → F × Group
  unfolding dice_similarity
  similar observed group = (dice_similarity observed group.techniques, group)

  unfoldable pub neighbors : List Group → List String → ℕ → List (F × Group)
  unfolding nearer sort_by similar
  neighbors groups observed top_k =
      take (at_least_one top_k)
        (sort_by nearer (filter (λ g. flt (ops.hundredths 0) g.0) (map (similar observed) groups)))

  -- the inner loop: one neighbor's weight for each of its unseen techniques
  unfoldable pub add_weight : List String → F → List String → Dict F → Dict F
  add_weight observed weight [] scores = scores
  add_weight observed weight (technique ∷ rest) scores = add_weight observed weight rest (
      if member technique observed
      then scores
      else put technique (ops.fadd (get_or technique scores (ops.hundredths 0)) weight) scores)

  unfoldable pub candidate_scores : List String → List (F × Group) → Dict F → Dict F
  unfolding add_weight wknn_weight
  candidate_scores observed [] scores = scores
  candidate_scores observed ((similarity, group) ∷ rest) scores = candidate_scores observed rest (
      if fle (wknn_weight similarity) (ops.hundredths 0)
      then scores
      else add_weight observed (wknn_weight similarity) group.techniques scores)

  unfoldable pub normalized : ℕ → F → Dict F → Dict F
  normalized top_k threshold scores =
      let denominator = ops.of_nat (at_least_one top_k) in
      map (λ e. (e.0, ops.round (ops.fdiv e.1 denominator) 6))
        (filter (λ e. fle threshold (ops.fdiv e.1 denominator)) scores)

  unfoldable pub recommend : List Group → List String → ℕ → F → Dict F
  unfolding observed_set neighbors candidate_scores normalized sort_by ranked_before
  recommend groups techniques top_k threshold =
      let observed = observed_set techniques in
      if is_empty observed || is_empty groups
      then []
      else sort_by ranked_before (
          normalized top_k threshold
            (candidate_scores observed (neighbors groups observed top_k) []))

  -- the repository that the controller is given
  unfoldable pub repository : Prior → TechniquePriorRepository F
  unfolding recommend
  repository prior = record {
    recommend = recommend prior.groups;
    degraded_reason = prior.degraded_reason;
  }
