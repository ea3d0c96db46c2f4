-- ===== src/Controller/Tick.antt =====
-- `ControllerService.tick` of services/controller/domain.py.
use honeypot_fyp.Prelude.{String, List, [], ◌∷◌, ◌++◌, Option, none, some, is_empty, if◌then◌else◌}
use honeypot_fyp.Common.Dict.{Dict}
use honeypot_fyp.Common.Floats.{FloatOps}
use honeypot_fyp.Contracts.Assets.{AssetDefinition}
use honeypot_fyp.Contracts.Actions.{ControllerAction, ControllerTickRequest}
use honeypot_fyp.Controller.Signals.{scanner_only_profile}
use honeypot_fyp.Controller.Gates.{Rejection}
use honeypot_fyp.Controller.Upgrades.{RevealOption}
use honeypot_fyp.Controller.Options.{reveal_options, append_option}
use honeypot_fyp.Controller.Scores.{
  CandidateScore, Strategy, exploit, explore, is_unlock, Scoring, score_reveal_option,
}
use honeypot_fyp.Controller.Order.{select}
use honeypot_fyp.Common.Text.{non_blank}
use honeypot_fyp.Controller.Records.{Service, DecisionEvent, ControllerTickResponse}
use honeypot_fyp.Controller.Decisions.{
  candidate_asset_ids, noop_response, thresholded_observed, build_action, build_decision_event,
}

abbrev pub scanner_reason : String
scanner_reason = "no_reveal: scanner-like traffic without follow-up context"

abbrev pub nothing_reason : String
nothing_reason = "no_reveal: no eligible asset for observed or recommended techniques"

-- The variables of the loop over the strategies.
pub record Progress (F : Type 0) : Type 0 where
  pub planned : List String
  pub actions : List (ControllerAction F)
  pub decisions : List (DecisionEvent F)
  pub considered : List (CandidateScore F)
  pub rejected : Dict Rejection
  pub exploit_context : Option (CandidateScore F)

-- An iteration returns a response, or goes on.
pub data Outcome (F : Type 0) : Type 0 where
  reply : ControllerTickResponse F → Outcome F
  go_on : Progress F → Outcome F

abbrev pub plan_target : Option String → List String → List String
plan_target none planned = planned
plan_target (some target) planned = planned ++ target ∷ []

abbrev pub context_after {ℓ} : {A : Type ℓ} → Strategy → A → Option A → Option A
context_after exploit selected before = some selected
context_after explore selected before = before

module _ {F : Type 0} where
  -- the ids that a selected candidate adds to the plan
  unfoldable pub plan : CandidateScore F → List String → List String
  plan c planned =
      if is_unlock c.action_type
      then planned ++ c.asset.asset_id ∷ []
      else plan_target (non_blank c.target_asset_id) planned

  -- `request.assets or list(self._asset_repository.list_all())`
  unfoldable pub assets_of : Service F → ControllerTickRequest F → List (AssetDefinition F)
  assets_of service request = if is_empty request.assets then service.catalog else request.assets

  abbrev pub start : ControllerTickRequest F → Progress F
  start request = record {
    planned = request.unlocked_asset_ids;
    actions = [];
    decisions = [];
    considered = [];
    rejected = [];
    exploit_context = none;
  }

  unfoldable pub response : ControllerTickRequest F → Progress F → ControllerTickResponse F
  unfolding candidate_asset_ids
  response request p = record {
    binding_id = request.binding_id;
    actions = p.actions;
    decision_events = p.decisions;
    candidate_asset_ids = candidate_asset_ids p.considered;
  }

module _ {F : Type 0} ⦃ops : FloatOps F⦄ where
  -- what the scoring of this tick reads, the recommendations included
  unfoldable pub scoring_of : Service F → ControllerTickRequest F → Scoring F
  unfolding thresholded_observed
  scoring_of service request =
      let observed = thresholded_observed service.config request.profile in
      record {
        use_prior = service.use_prior_support;
        request = request;
        observed = observed;
        recommendations =
            if service.use_prior_support
            then service.prior.recommend observed service.config.recommendation_top_k
                service.config.recommendation_support_threshold
            else [];
      }

  unfoldable pub scored :
      Scoring F
      → Strategy
      → Option (CandidateScore F)
      → List (RevealOption F)
      → List (CandidateScore F)
  unfolding score_reveal_option
  scored s strategy main [] = []
  scored s strategy main (option ∷ rest) =
      append_option (score_reveal_option s strategy main option) (scored s strategy main rest)

  unfoldable pub after_selection :
      Service F
      → ControllerTickRequest F
      → Strategy
      → List (CandidateScore F)
      → Option (CandidateScore F)
      → Progress F
      → Outcome F
  unfolding noop_response candidate_asset_ids plan build_action build_decision_event
  after_selection service request exploit candidates none p =
      if is_empty p.actions
      then reply (
          noop_response service request nothing_reason (candidate_asset_ids p.considered)
            p.rejected)
      else go_on p
  after_selection service request explore candidates none p = go_on p
  after_selection service request strategy candidates (some c) p = go_on (record p {
    planned = plan c p.planned;
    actions = p.actions ++ build_action request.binding_id c ∷ [];
    decisions = p.decisions ++ build_decision_event service request c p.rejected candidates ∷ [];
    exploit_context = context_after strategy c p.exploit_context;
  })

  -- one iteration of the loop
  unfoldable pub iteration : Service F → ControllerTickRequest F → Strategy → Progress F → Outcome F
  unfolding after_selection scored scoring_of reveal_options select assets_of
  iteration service request strategy p =
      let (options, rejected) =
        reveal_options service.host service.config (assets_of service request) request p.planned
          p.rejected in
      let candidates = scored (scoring_of service request) strategy p.exploit_context options in
      after_selection service request strategy candidates (select candidates)
        (record p { considered = p.considered ++ candidates; rejected = rejected })

  unfoldable pub iterate :
      Service F → ControllerTickRequest F → List Strategy → Progress F → ControllerTickResponse F
  unfolding iteration response
  iterate service request [] p = response request p
  iterate service request (strategy ∷ rest) p = elim (iteration service request strategy p) [
    | reply r ↦ r
    | go_on p' ↦ iterate service request rest p'
  ]

  unfoldable pub tick : Service F → ControllerTickRequest F → ControllerTickResponse F
  unfolding iterate noop_response
  tick service request =
      if scanner_only_profile request.profile
      then noop_response service request scanner_reason [] []
      else iterate service request (exploit ∷ explore ∷ []) (start request)
