-- ===== src/Controller/Gain.antt =====
-- The technique scores of services/controller/domain.py: `_best_family_score`, `_technique_gain`, and
-- `_technique_candidate_parts`.
use honeypot_fyp.Prelude.{
  String, Bool, true, false, not, ◌&&◌, ◌||◌, List, [], ◌∷◌, map, Option, none, some, any, ◌==◌,
  string_eq, if◌then◌else◌,
}
use honeypot_fyp.Common.Dict.{Dict, get_or}
use honeypot_fyp.Common.Floats.{FloatOps, flt, fmax, fmin, sum}
use honeypot_fyp.Common.Attack.{same_technique_family}
use honeypot_fyp.Controller.Upgrades.{
  CandidateType, no_candidate, continuation, gate_only, recommended, weak_evidence,
}

pub data MatchType : Type 0 where
  no_match exact family : MatchType

-- The dictionary that `_technique_candidate_parts` returns.
pub record Parts (F : Type 0) : Type 0 where
  pub signal_score : F
  pub confidence : F
  pub recommendation_support : F
  pub candidate_type : CandidateType
  pub match_type : MatchType
  pub matched_profile_technique : Option String
  pub matched_prior_technique : Option String

-- One `GainTerm` of the audit record.
pub record GainTerm (F : Type 0) : Type 0 where
  pub technique : String
  pub support : F
  pub confidence : F
  pub gain : F

module _ {F : Type 0} ⦃ops : FloatOps F⦄ where
  abbrev pub zero_score : F
  zero_score = ops.hundredths 0

  abbrev pub one_score : F
  one_score = ops.hundredths 100

  better_family : String → String → F → F × Option String → F × Option String
  unfolding same_technique_family
  better_family technique candidate value best =
      if candidate == technique || not (same_technique_family candidate technique)
      then best
      else if flt best.0 (ops.fmul value (ops.hundredths 75))
      then (ops.fmul value (ops.hundredths 75), some candidate)
      else best

  family_loop : String → F × Option String → Dict F → F × Option String
  unfolding better_family
  family_loop technique best [] = best
  family_loop technique best ((candidate, value) ∷ rest) =
      family_loop technique (better_family technique candidate value best) rest

  -- `_best_family_score`
  unfoldable pub best_family_score : String → Dict F → F × Option String
  unfolding family_loop
  best_family_score technique scores = family_loop technique (zero_score, none) scores

  -- The support of a technique: its own recommendation or the best of its family, or 1 without prior.
  unfoldable pub support_of : Bool → String → Dict F → F
  unfolding get_or best_family_score
  support_of use_prior technique recommendations =
      if use_prior
      then fmax (get_or technique recommendations zero_score)
          (best_family_score technique recommendations).0
      else one_score

  -- `_technique_gain`
  unfoldable pub technique_gain : Bool → String → Dict F → Dict F → F
  unfolding support_of
  technique_gain use_prior technique confidences recommendations =
      ops.fmul (support_of use_prior technique recommendations)
        (fmax zero_score (ops.fsub one_score (get_or technique confidences zero_score)))

  -- `_expected_technique_gain`
  unfoldable pub expected_technique_gain : Bool → List String → Dict F → Dict F → F
  unfolding sum technique_gain
  expected_technique_gain use_prior covered confidences recommendations =
      sum
        (map (λ technique. technique_gain use_prior technique confidences recommendations) covered)

  -- `_gain_term_details`
  unfoldable pub gain_term_details : Bool → List String → Dict F → Dict F → List (GainTerm F)
  unfolding technique_gain
  gain_term_details use_prior covered confidences recommendations =
      map
        (λ technique. record {
          technique = technique;
          support = ops.round (support_of use_prior technique recommendations) 4;
          confidence = ops.round (get_or technique confidences zero_score) 4;
          gain = ops.round (technique_gain use_prior technique confidences recommendations) 4;
        })
        covered

  -- The observed confidence of a technique and where it comes from, its family included.
  unfoldable pub profile_match : String → Dict F → F × Option String × Bool
  unfolding get_or best_family_score
  profile_match technique confidences =
      let own = get_or technique confidences zero_score in
      let best = best_family_score technique confidences in
      if flt own best.0
      then (best.0, best.1, true)
      else (own, if flt zero_score own then some technique else none, false)

  -- The same for the prior, where it is in use.
  unfoldable pub prior_match : Bool → String → Dict F → F × Option String × Bool
  unfolding get_or best_family_score
  prior_match false technique recommendations = (zero_score, none, false)
  prior_match true technique recommendations =
      let own = get_or technique recommendations zero_score in
      let best = best_family_score technique recommendations in
      if flt own best.0
      then (best.0, best.1, true)
      else (own, if flt zero_score own then some technique else none, false)

  -- `candidate_type` and `signal_score`
  unfoldable pub classify : Bool → Bool → Bool → F → F → CandidateType × F
  classify observed use_prior has_marker confidence support =
      if observed
      then (continuation, fmin one_score confidence)
      else if not use_prior
      then (gate_only, one_score)
      else if flt zero_score support
      then (recommended, support)
      else if has_marker && flt zero_score confidence
      then (weak_evidence, fmin one_score confidence)
      else (no_candidate, zero_score)

  -- `_technique_candidate_parts`
  unfoldable pub technique_candidate_parts :
      Bool → Bool → String → Dict F → List String → Dict F → Parts F
  unfolding profile_match prior_match classify same_technique_family
  technique_candidate_parts use_prior has_marker technique confidences observed recommendations =
      let own = get_or technique confidences zero_score in
      let (confidence, profile_technique, profile_family) = profile_match technique confidences in
      let (support, prior_technique, prior_family) =
        prior_match use_prior technique recommendations in
      let seen = any (λ item. same_technique_family technique item) observed in
      let (candidate_type, signal_score) = classify seen use_prior has_marker confidence support in
      record {
        signal_score = signal_score;
        confidence = confidence;
        recommendation_support = support;
        candidate_type = candidate_type;
        match_type =
            if profile_family || prior_family
            then family
            else if flt zero_score own
            then exact
            else no_match;
        matched_profile_technique = profile_technique;
        matched_prior_technique = prior_technique;
      }
