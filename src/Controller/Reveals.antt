-- ===== src/Controller/Reveals.antt =====
-- What one tick of services/controller/domain.py decides: its responses, case by case.
use honeypot_fyp.Prelude.{
  String, true, List, [], ◌∷◌, ◌++◌, Option, none, some, ◌≡◌, refl, false, inl, inr, Bool-cases,
  Option-cases,
}
use honeypot_fyp.Common.Dict.{Dict}
use honeypot_fyp.Common.Floats.{FloatOps}
use honeypot_fyp.Common.Iterables.{dedupe_preserve}
use honeypot_fyp.Contracts.Actions.{ControllerTickRequest}
use honeypot_fyp.Controller.Signals.{scanner_only_profile}
use honeypot_fyp.Controller.Gates.{Rejection}
use honeypot_fyp.Controller.Options.{reveal_options}
use honeypot_fyp.Controller.Scores.{
  CandidateScore, Strategy, exploit, explore, is_distinct_explore_technique,
}
use honeypot_fyp.Controller.Order.{select}
use honeypot_fyp.Controller.Selection.{IsFirstLeast, select-IsFirstLeast}
use honeypot_fyp.Controller.Records.{Service, ControllerTickResponse}
use honeypot_fyp.Controller.Decisions.{
  candidate_asset_ids, noop_response, build_action, build_decision_event,
}
use honeypot_fyp.Controller.Admission.{IsAdmitted}
use honeypot_fyp.Controller.Admitted.{reveal_options-IsAdmitted}
use honeypot_fyp.Controller.Candidates.{
  IsCandidate, every, admitted-Holds, explore-Holds, scored-All, IsFirstLeast-All,
}
use honeypot_fyp.Controller.Tick.{
  scanner_reason, nothing_reason, plan, assets_of, response, scoring_of, scored, after_selection,
  iteration, iterate, tick,
}

module _ {F : Type 0} ⦃ops : FloatOps F⦄ where
  -- the candidates of one pass
  unfoldable pub candidates_of :
      Service F
      → ControllerTickRequest F
      → Strategy
      → Option (CandidateScore F)
      → List String
      → Dict Rejection
      → List (CandidateScore F)
  candidates_of service request strategy main planned rejected =
      scored (scoring_of service request) strategy main
        (reveal_options service.host service.config (assets_of service request) request planned
          rejected).0

  -- what `rejected` holds after a pass
  unfoldable pub rejected_of :
      Service F → ControllerTickRequest F → List String → Dict Rejection → Dict Rejection
  rejected_of service request planned rejected =
      (reveal_options service.host service.config (assets_of service request) request planned
        rejected).1

  abbrev pub main_rejected : Service F → ControllerTickRequest F → Dict Rejection
  main_rejected service request = rejected_of service request request.unlocked_asset_ids []

  -- the candidates of the explore pass after a main reveal
  abbrev pub explore_candidates :
      Service F → ControllerTickRequest F → CandidateScore F → List (CandidateScore F)
  explore_candidates service request c =
      candidates_of service request explore (some c) (plan c request.unlocked_asset_ids)
        (main_rejected service request)

  abbrev pub explore_rejected :
      Service F → ControllerTickRequest F → CandidateScore F → Dict Rejection
  explore_rejected service request c =
      rejected_of service request (plan c request.unlocked_asset_ids)
        (main_rejected service request)

  abbrev pub main_candidates : Service F → ControllerTickRequest F → List (CandidateScore F)
  main_candidates service request =
      candidates_of service request exploit none request.unlocked_asset_ids []

-- The candidate is an admitted reveal, given the ids that are planned, and the first of the least of
-- the candidates of its pass.
pub record IsChoice {F : Type 0} ⦃ops : FloatOps F⦄ (service : Service F)
    (request : ControllerTickRequest F) (strategy : Strategy) (main : Option (CandidateScore F))
    (planned : List String) (rejected : Dict Rejection) (c : CandidateScore F) : Type 0 where
  pub admitted :
      IsCandidate service.host service.config (assets_of service request) request planned c
  pub least : IsFirstLeast (candidates_of service request strategy main planned rejected) c

-- Why a tick reveals nothing, with what its noop reports: the profile is of a scanner, or the main pass has
-- no candidate.
pub data IsQuiet {F : Type 0} ⦃ops : FloatOps F⦄ (service : Service F)
    (request : ControllerTickRequest F) (reason : String) (ids : List String)
    (rejected : Dict Rejection) : Type 0 where
  scanning :
      scanner_only_profile request.profile ≡ true
      → reason ≡ scanner_reason
      → ids ≡ []
      → rejected ≡ []
      → IsQuiet service request reason ids rejected
  nothing :
      scanner_only_profile request.profile ≡ false
      → main_candidates service request ≡ []
      → reason ≡ nothing_reason
      → ids ≡ []
      → rejected ≡ main_rejected service request
      → IsQuiet service request reason ids rejected

-- The responses that a tick can give.
pub data IsDecided {F : Type 0} ⦃ops : FloatOps F⦄ (service : Service F)
    (request : ControllerTickRequest F) : ControllerTickResponse F → Type 0 where
  quiet :
      (reason : String) (ids : List String) (rejected : Dict Rejection)
      → IsQuiet service request reason ids rejected
      → IsDecided service request (noop_response service request reason ids rejected)
  main_only :
      (c : CandidateScore F)
      → IsChoice service request exploit none request.unlocked_asset_ids [] c
      → IsDecided service request (record {
        binding_id = request.binding_id;
        actions = build_action request.binding_id c ∷ [];
        decision_events =
            build_decision_event service request c
              (main_rejected service request)
              (main_candidates service request)
            ∷ [];
        candidate_asset_ids =
            candidate_asset_ids
              (main_candidates service request ++ explore_candidates service request c);
      })
  main_and_explore :
      (c d : CandidateScore F)
      → IsChoice service request exploit none request.unlocked_asset_ids [] c
      → IsChoice service request explore
          (some c)
          (plan c request.unlocked_asset_ids)
          (main_rejected service request)
          d
      → is_distinct_explore_technique c d.selected_technique ≡ true
      → IsDecided service request (record {
        binding_id = request.binding_id;
        actions = build_action request.binding_id c ∷ build_action request.binding_id d ∷ [];
        decision_events =
            build_decision_event service request c
              (main_rejected service request)
              (main_candidates service request)
            ∷ build_decision_event service request d
                (explore_rejected service request c)
                (explore_candidates service request c)
            ∷ [];
        candidate_asset_ids =
            candidate_asset_ids
              (main_candidates service request ++ explore_candidates service request c);
      })

module _ {F : Type 0} ⦃ops : FloatOps F⦄ where
  choice :
      (service : Service F) (request : ControllerTickRequest F) (strategy : Strategy)
      (main : Option (CandidateScore F)) (planned : List String) (rejected : Dict Rejection)
      (c : CandidateScore F)
      → select (candidates_of service request strategy main planned rejected) ≡ some c
      → IsChoice service request strategy main planned rejected c
  unfolding candidates_of
  choice service request strategy main planned rejected c h =
      let assets = assets_of service request in
      let s = scoring_of service request in
      let least =
        select-IsFirstLeast (candidates_of service request strategy main planned rejected) c h in
      record {
        admitted =
            IsFirstLeast-All (IsCandidate service.host service.config assets request planned) _ c
              (scored-All (IsAdmitted service.host service.config assets request planned)
                (IsCandidate service.host service.config assets request planned) s strategy main _
                (λ o h.
                  admitted-Holds service.host service.config assets request planned s o strategy
                    main h)
                (reveal_options-IsAdmitted service.host service.config assets request planned
                  rejected))
              least;
        least = least;
      }

  distinct_choice :
      (service : Service F) (request : ControllerTickRequest F) (main : CandidateScore F)
      (planned : List String) (rejected : Dict Rejection) (c : CandidateScore F)
      → select (candidates_of service request explore (some main) planned rejected) ≡ some c
      → is_distinct_explore_technique main c.selected_technique ≡ true
  unfolding candidates_of
  distinct_choice service request main planned rejected c h =
      IsFirstLeast-All (λ d. is_distinct_explore_technique main d.selected_technique ≡ true) _ c
        (scored-All (λ o. Unit {0})
          (λ d. is_distinct_explore_technique main d.selected_technique ≡ true)
          (scoring_of service request) explore (some main) _
          (λ o h. explore-Holds (scoring_of service request) main o)
          (every
            (reveal_options service.host service.config (assets_of service request) request planned
              rejected).0
            tt))
        (select-IsFirstLeast (candidates_of service request explore (some main) planned rejected) c
          h)

  no_candidates : (cs : List (CandidateScore F)) → select cs ≡ none → cs ≡ []
  unfolding select
  no_candidates [] h = refl
  no_candidates (c ∷ rest) h = cc

  no_ids : (cs : List (CandidateScore F)) → cs ≡ [] → candidate_asset_ids cs ≡ []
  unfolding candidate_asset_ids dedupe_preserve
  no_ids cs h = rw h refl

  -- A tick answers with one noop, as the profile is of a scanner only or no candidate is left,
  -- which is the reason it gives, with the main reveal alone, or with the main reveal and one
  -- explore reveal. Each reveal is the unlock of a catalog asset that passes every hard gate or an
  -- unrevealed follow-on configuration of an open asset, given what is open and planned at that
  -- point; it is the first of the least candidates of its pass; and the explore reveal is of a
  -- technique family that the main reveal neither selected nor covers. The decision events and
  -- candidate ids are those of the two passes.
  pub tick-IsDecided :
      (service : Service F) (request : ControllerTickRequest F)
      → IsDecided service request (tick service request)
  unfolding tick iterate iteration after_selection candidates_of rejected_of response
  tick-IsDecided service request = elim (Bool-cases (scanner_only_profile request.profile)) [
    | inl scans ↦ rw scans (quiet scanner_reason [] [] (scanning scans refl refl refl))
    | inr engaged ↦ rw engaged (elim (Option-cases (select (main_candidates service request))) [
      | inl none_left ↦
          rw (none_left, iterate)
            (let empty = no_candidates (main_candidates service request) none_left in
              quiet nothing_reason (candidate_asset_ids (main_candidates service request))
                (main_rejected service request)
                (nothing engaged empty refl (no_ids (main_candidates service request) empty) refl))
      | inr (c, chosen) ↦
          rw (chosen, iterate)
            (let planned = plan c request.unlocked_asset_ids in
              let first =
                choice service request exploit none request.unlocked_asset_ids [] c chosen in
              elim (Option-cases (select (explore_candidates service request c))) [
                | inl no_more ↦ rw no_more (main_only c first)
                | inr (d, further) ↦ rw further (
                    main_and_explore c d first
                      (choice service request explore (some c) planned
                        (main_rejected service request) d further)
                      (distinct_choice service request c planned (main_rejected service request) d
                        further))
              ])
    ])
  ]
