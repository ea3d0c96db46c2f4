-- ===== src/Controller/Explore.antt =====
-- When services/controller/domain.py adds an explore reveal, and how its events explain its actions.
use Prim.Native.Nat.{◌≤◌}
use honeypot_fyp.Prelude.{
  starts_with, Bool, not, ◌&&◌, any, starts_with, ℕ, String, true, ◌||◌, List, [], ◌∷◌, map, some,
  ◌≡◌, refl, inl, inr, arith, All, Bool-cases, length, string_eq,
}
use honeypot_fyp.Common.Dict.{Dict}
use honeypot_fyp.Common.Floats.{FloatOps}
use honeypot_fyp.Common.Attack.{technique_family}
use honeypot_fyp.Common.Iterables.{dedupe_preserve}
use honeypot_fyp.Contracts.Actions.{ControllerAction, ControllerTickRequest}
use honeypot_fyp.Controller.Signals.{has_concrete_marker}
use honeypot_fyp.Controller.Gates.{Rejection}
use honeypot_fyp.Controller.Upgrades.{RevealOption}
use honeypot_fyp.Controller.Options.{reveal_options}
use honeypot_fyp.Controller.Scores.{
  CandidateScore, explore, is_some, Scoring, candidate_score, technique_scores, explore_admits,
}
use honeypot_fyp.Controller.Records.{
  Service, ControllerTickResponse, DecisionEvent, Details, revealed, no_reveal,
}
use honeypot_fyp.Controller.Decisions.{
  noop_response, build_action, build_decision_event, thresholded_observed,
}
use honeypot_fyp.Controller.Admission.{Holds}
use honeypot_fyp.Controller.Candidates.{
  every, score_reveal_option-Holds, scored-All, IsFirstLeast-All,
}
use honeypot_fyp.Controller.Tick.{assets_of, scoring_of, tick}
use honeypot_fyp.Controller.Reveals.{
  candidates_of, IsChoice, IsDecided, quiet, main_only, main_and_explore, tick-IsDecided,
}

-- The number of technique families among the techniques that are observed.
abbrev pub breadth : List String → ℕ
breadth observed = length (dedupe_preserve (map technique_family observed))

one-not-two : ◌≡◌ {A = ℕ} 1 2 → ⊥
one-not-two h = omega (arith, h)

-- A marker of a path, a rule or an indicator, and not of a technique or a tactic.
abbrev pub is_breadcrumb : String → Bool
is_breadcrumb marker =
    not (starts_with marker "any_techniques:") && not (starts_with marker "any_tactics:")

has_concrete_marker-any :
    (markers : List String) → has_concrete_marker markers ≡ any is_breadcrumb markers
unfolding has_concrete_marker
has_concrete_marker-any [] = refl
has_concrete_marker-any (m ∷ rest) = ground (arith, has_concrete_marker-any rest)

admits_grounded :
    {F : Type 0} (observed : List String) (option : RevealOption F)
    → explore_admits observed option ≡ true
    → (2 ≤ breadth observed)
      × ((any is_breadcrumb option.matched_dependency_markers || is_some option.upgrade_context)
          ≡ true)
unfolding explore_admits
admits_grounded observed option h = (
  ground (arith, h),
  ground (arith, has_concrete_marker-any option.matched_dependency_markers, h),
)

module _ {F : Type 0} ⦃ops : FloatOps F⦄ where
  -- The profile shows two technique families, and the candidate has a concrete breadcrumb or is an
  -- explicit upgrade.
  abbrev pub IsGrounded : List String → CandidateScore F → Type 0
  IsGrounded observed d =
      (2 ≤ breadth observed)
      × ((any is_breadcrumb d.matched_dependency_markers || is_some d.upgrade_context) ≡ true)

  IsGrounded-scores :
      (s : Scoring F) (main : CandidateScore F) (option : RevealOption F)
      → Holds
          (λ scores.
            All (λ e. IsGrounded s.observed (candidate_score s option explore scores e)) scores)
          (technique_scores s option explore (some main))
  unfolding technique_scores candidate_score
  IsGrounded-scores s main option = elim (Bool-cases (explore_admits s.observed option)) [
    | inl admits ↦ rw admits (every _ (admits_grounded s.observed option admits))
    | inr refuses ↦ rw refuses tt
  ]

  explore-IsGrounded :
      (service : Service F) (request : ControllerTickRequest F) (c d : CandidateScore F)
      (planned : List String) (rejected : Dict Rejection)
      → IsChoice service request explore (some c) planned rejected d
      → IsGrounded (thresholded_observed service.config request.profile) d
  unfolding candidates_of scoring_of
  explore-IsGrounded service request c d planned rejected h =
      let s = scoring_of service request in
      IsFirstLeast-All (IsGrounded s.observed) _ d
        (scored-All (λ o. Unit {0}) (IsGrounded s.observed) s explore (some c) _
          (λ o h.
            score_reveal_option-Holds (IsGrounded s.observed) s o explore (some c)
              (IsGrounded-scores s c o))
          (every
            (reveal_options service.host service.config (assets_of service request) request planned
              rejected).0
            tt))
        h.least

  -- The action is the reveal of the candidate that the details record, which is grounded.
  abbrev pub IsGroundedReveal : String → List String → ControllerAction F → Details F → Type 0
  IsGroundedReveal binding_id observed a (revealed c _ _ _ _ _ _ _ _ _ _) =
      (a ≡ build_action binding_id c) × IsGrounded observed c
  IsGroundedReveal binding_id observed a (no_reveal _ _ _ _) = ⊥

  -- the conclusion about a tick with two actions
  decided_explore :
      (service : Service F) (request : ControllerTickRequest F) (r : ControllerTickResponse F)
      → IsDecided service request r
      → length r.actions ≡ 2
      → (a a' : ControllerAction F) × (e e' : DecisionEvent F) × (r.actions ≡ a ∷ a' ∷ [])
        × (r.decision_events ≡ e ∷ e' ∷ [])
        × IsGroundedReveal request.binding_id
            (thresholded_observed service.config request.profile)
            a'
            e'.details
  unfolding noop_response build_decision_event
  decided_explore service request _ (quiet reason ids rejected why) h = elim (one-not-two h) [ ]
  decided_explore service request _ (main_only c first) h = elim (one-not-two h) [ ]
  decided_explore service request _ (main_and_explore c d first second new) h =
      (_, _, _, _, refl, refl, (refl, explore-IsGrounded service request c d _ _ second))

  -- Where a tick makes two actions, it records two decision events, and the second action is the
  -- reveal of the candidate that the details of the second event record. That candidate has a
  -- concrete breadcrumb among its markers or is an explicit upgrade, and the observed techniques
  -- are of two families at least.
  pub tick_explore-IsGrounded :
      (service : Service F) (request : ControllerTickRequest F)
      → length (tick service request).actions ≡ 2
      → let r = tick service request in
        (a a' : ControllerAction F) × (e e' : DecisionEvent F) × (r.actions ≡ a ∷ a' ∷ [])
        × (r.decision_events ≡ e ∷ e' ∷ [])
        × IsGroundedReveal request.binding_id
            (thresholded_observed service.config request.profile)
            a'
            e'.details
  tick_explore-IsGrounded service request h =
      decided_explore service request (tick service request) (tick-IsDecided service request) h
