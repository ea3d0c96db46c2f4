-- ===== src/Controller/Candidates.antt =====
-- What the scoring of services/controller/domain.py keeps of an option, and which technique it picks.
use honeypot_fyp.Prelude.{
  String, Bool, true, List, [], ◌∷◌, Option, none, some, filter, is_empty, ◌≡◌, All, Bool-cases,
  inl, inr,
}
use honeypot_fyp.Common.Dict.{Dict}
use honeypot_fyp.Common.Floats.{FloatOps}
use honeypot_fyp.Contracts.Assets.{AssetDefinition}
use honeypot_fyp.Contracts.Actions.{ControllerTickRequest}
use honeypot_fyp.Common.Json.{Host}
use honeypot_fyp.Controller.Settings.{Config}
use honeypot_fyp.Controller.Upgrades.{RevealOption}
use honeypot_fyp.Controller.Gain.{Parts}
use honeypot_fyp.Controller.Scores.{
  CandidateScore, Strategy, explore, Scoring, raw_scores, counts, technique_scores, technique_beats,
  best_loop, best_technique, candidate_score, score_selected, score_with, score_reveal_option,
  explore_technique_scores, explore_admits, is_distinct_explore_technique,
}
use honeypot_fyp.Controller.Admission.{Admitted, IsAdmitted, Holds, Holds-append}
use honeypot_fyp.Controller.Selection.{IsFirstLeast, here, there}
use honeypot_fyp.Controller.Tick.{scored}

filter-All {ℓ} : {A : Type ℓ} (p : A → Bool) (xs : List A) → All (λ x. p x ≡ true) (filter p xs)
filter-All p [] = tt
filter-All p (x ∷ xs) = elim (Bool-cases (p x)) [
  | inl kept ↦ rw kept (kept, filter-All p xs)
  | inr dropped ↦ rw dropped (filter-All p xs)
]

pub every {ℓ κ} : {A : Type ℓ} {P : Type κ} (xs : List A) → P → All (λ x. P) xs
every [] p = tt
every (x ∷ xs) p = (p, every xs p)

module _ {F : Type 0} ⦃ops : FloatOps F⦄ where
  -- A candidate is the reveal of its option.
  abbrev pub IsCandidate :
      Host F
      → Config F
      → List (AssetDefinition F)
      → ControllerTickRequest F
      → List String
      → CandidateScore F
      → Type 0
  IsCandidate host config assets request planned c =
      Admitted host config assets request planned c.asset c.action_type c.configuration_id
        c.target_asset_id c.settings

module _ {F : Type 0} ⦃ops : FloatOps F⦄ where
  best_loop-Holds :
      (P : String × Parts F → Type 0) (s : Scoring F) (best : String × Parts F)
      (rest : Dict (Parts F))
      → P best
      → All P rest
      → P (best_loop s best rest)
  unfolding best_loop
  best_loop-Holds P s best [] h k = h
  best_loop-Holds P s best (e ∷ rest) h k = elim (Bool-cases (technique_beats s e best)) [
    | inl greater ↦ rw greater (best_loop-Holds P s e rest k.0 k.1)
    | inr less ↦ rw less (best_loop-Holds P s best rest h k.1)
  ]

  best_technique-Holds :
      (P : String × Parts F → Type 0) (s : Scoring F) (scores : Dict (Parts F))
      → All P scores
      → Holds P (best_technique s scores)
  unfolding best_technique
  best_technique-Holds P s [] h = tt
  best_technique-Holds P s (e ∷ rest) h = best_loop-Holds P s e rest h.0 h.1

  score_selected-Holds :
      (P : CandidateScore F → Type 0) (s : Scoring F) (option : RevealOption F)
      (strategy : Strategy) (scores : Dict (Parts F)) (best : Option (String × Parts F))
      → Holds (λ e. P (candidate_score s option strategy scores e)) best
      → Holds P (score_selected s option strategy scores best)
  unfolding score_selected
  score_selected-Holds P s option strategy scores none h = tt
  score_selected-Holds P s option strategy scores (some best) h = h

  score_with-Holds :
      (P : CandidateScore F → Type 0) (s : Scoring F) (option : RevealOption F)
      (strategy : Strategy) (found : Option (Dict (Parts F)))
      → Holds (λ scores. All (λ e. P (candidate_score s option strategy scores e)) scores) found
      → Holds P (score_with s option strategy found)
  unfolding score_with
  score_with-Holds P s option strategy none h = tt
  score_with-Holds P s option strategy (some scores) h =
      score_selected-Holds P s option strategy scores (best_technique s scores)
        (best_technique-Holds (λ e. P (candidate_score s option strategy scores e)) s scores h)

  distinct_scores :
      (s : Scoring F) (main : CandidateScore F) (option : RevealOption F)
      → Holds
          (All (λ e. is_distinct_explore_technique main e.0 ≡ true))
          (technique_scores s option explore (some main))
  unfolding technique_scores explore_technique_scores
  distinct_scores s main option = elim (Bool-cases (explore_admits s.observed option)) [
    | inl admits ↦ rw admits (
        filter-All (λ e. is_distinct_explore_technique main e.0)
          (filter counts (raw_scores s option)))
    | inr refuses ↦ rw refuses tt
  ]

  pub score_reveal_option-Holds :
      (P : CandidateScore F → Type 0) (s : Scoring F) (option : RevealOption F)
      (strategy : Strategy) (main : Option (CandidateScore F))
      → Holds
          (λ scores. All (λ e. P (candidate_score s option strategy scores e)) scores)
          (technique_scores s option strategy main)
      → Holds P (score_reveal_option s strategy main option)
  unfolding score_reveal_option
  score_reveal_option-Holds P s option strategy main h =
      elim (Bool-cases (is_empty option.covered_techniques)) [
        | inl nothing ↦ rw nothing tt
        | inr something ↦
            rw something
              (score_with-Holds P s option strategy (technique_scores s option strategy main) h)
      ]

  -- What an explore pass picks is a new direction: not of the family of the technique of the main
  -- reveal, nor of one that the main reveal covers.
  pub explore-Holds :
      (s : Scoring F) (main : CandidateScore F) (option : RevealOption F)
      → Holds
          (λ c. is_distinct_explore_technique main c.selected_technique ≡ true)
          (score_reveal_option s explore (some main) option)
  unfolding candidate_score
  explore-Holds s main option =
      score_reveal_option-Holds
        (λ c. is_distinct_explore_technique main c.selected_technique ≡ true) s option explore
        (some main) (distinct_scores s main option)

  All-scores : {P : Type 0} (found : Option (Dict (Parts F))) → P → Holds (All (λ e. P)) found
  All-scores none p = tt
  All-scores (some scores) p = every scores p

  pub admitted-Holds :
      (host : Host F) (config : Config F) (assets : List (AssetDefinition F))
      (request : ControllerTickRequest F) (planned : List String) (s : Scoring F)
      (option : RevealOption F) (strategy : Strategy) (main : Option (CandidateScore F))
      → IsAdmitted host config assets request planned option
      → Holds
          (IsCandidate host config assets request planned)
          (score_reveal_option s strategy main option)
  unfolding candidate_score
  admitted-Holds host config assets request planned s option strategy main h =
      score_reveal_option-Holds (IsCandidate host config assets request planned) s option strategy
        main (All-scores (technique_scores s option strategy main) h)

  -- What holds of all that scoring gives holds of the candidates, and of the one that is least.
  pub scored-All :
      (P : RevealOption F → Type 0) (Q : CandidateScore F → Type 0) (s : Scoring F)
      (strategy : Strategy) (main : Option (CandidateScore F)) (options : List (RevealOption F))
      → ((o : RevealOption F) → P o → Holds Q (score_reveal_option s strategy main o))
      → All P options
      → All Q (scored s strategy main options)
  unfolding scored
  scored-All P Q s strategy main [] f h = tt
  scored-All P Q s strategy main (o ∷ rest) f h =
      Holds-append Q (score_reveal_option s strategy main o) (scored s strategy main rest) (f o h.0)
        (scored-All P Q s strategy main rest f h.1)

  pub IsFirstLeast-All :
      (P : CandidateScore F → Type 0) (xs : List (CandidateScore F)) (c : CandidateScore F)
      → All P xs
      → IsFirstLeast xs c
      → P c
  IsFirstLeast-All P _ c h (here _ _ _) = h.0
  IsFirstLeast-All P _ c h (there x _ rest _ f) = IsFirstLeast-All P rest c h.1 f
