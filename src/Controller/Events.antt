-- ===== src/Controller/Events.antt =====
-- How the decision events of services/controller/domain.py explain its actions.
use honeypot_fyp.Prelude.{
  String, true, false, List, [], ◌∷◌, Option, none, some, ◌≡◌, ◌⊎◌, refl, inl, inr,
}
use honeypot_fyp.Common.Dict.{Dict}
use honeypot_fyp.Common.Floats.{FloatOps}
use honeypot_fyp.Common.Json.{Json, Host}
use honeypot_fyp.Contracts.Assets.{AssetDefinition}
use honeypot_fyp.Contracts.Actions.{
  ActionType, unlock, configure, noop, ControllerAction, ControllerTickRequest,
}
use honeypot_fyp.Controller.Settings.{Config}
use honeypot_fyp.Controller.Gates.{Rejection}
use honeypot_fyp.Controller.Scores.{CandidateScore, is_configure}
use honeypot_fyp.Controller.Order.{exposed_asset_id, id_or}
use honeypot_fyp.Controller.Records.{
  Service, DecisionType, bind_decision, unlock_decision, configure_decision, noop_decision,
  DecisionEvent, ControllerTickResponse,
}
use honeypot_fyp.Controller.Decisions.{noop_response, build_action, build_decision_event}
use honeypot_fyp.Controller.Admission.{Admitted, unlocks, configures}
use honeypot_fyp.Controller.Candidates.{IsCandidate}
use honeypot_fyp.Controller.Tick.{assets_of, tick}
use honeypot_fyp.Controller.Reveals.{IsDecided, quiet, main_only, main_and_explore, tick-IsDecided}

-- The asset that the attacker is shown: of a configuration its target, where it has one.
abbrev pub exposed_by : ActionType → Option String → Option String → Option String
exposed_by unlock asset_id target = asset_id
exposed_by configure (some asset_id) target = some (id_or target asset_id)
exposed_by _ _ _ = none

abbrev pub kind_of : ActionType → DecisionType
kind_of unlock = unlock_decision
kind_of configure = configure_decision
kind_of noop = noop_decision
kind_of _ = bind_decision

-- The event tells of the action: its kind, its binding, the asset that it exposes, and the evidence.
pub record IsExplained {F : Type 0} (request : ControllerTickRequest F) (a : ControllerAction F)
    (e : DecisionEvent F) : Type 0 where
  pub binding : a.binding_id ≡ request.binding_id
  pub event_binding : e.binding_id ≡ request.binding_id
  pub attacker : e.attacker_key ≡ request.attacker_key
  pub kind : e.decision_type ≡ kind_of a.action_type
  pub exposed : e.asset_added ≡ exposed_by a.action_type a.asset_id a.target_asset_id
  pub evidence : e.trigger_evidence_ids ≡ request.profile.recent_evidence_ids

module _ {F : Type 0} where
  -- one event for each action, in order
  abbrev pub AreExplained :
      ControllerTickRequest F → List (ControllerAction F) → List (DecisionEvent F) → Type 0
  AreExplained request [] [] = Unit
  AreExplained request (a ∷ as') (e ∷ es) = IsExplained request a e × AreExplained request as' es
  AreExplained request _ _ = ⊥

module _ {F : Type 0} ⦃ops : FloatOps F⦄ where
  -- A reveal is an unlock without a target, or a configuration.
  shape :
      {host : Host F} {config : Config F} {assets : List (AssetDefinition F)}
      {request : ControllerTickRequest F} {planned : List String} {a : AssetDefinition F}
      {t : ActionType} {i j : Option String} {st : Dict (Json F)}
      → Admitted host config assets request planned a t i j st
      → (is_configure t ≡ true) ⊎ ((is_configure t ≡ false) × (j ≡ none))
  shape (unlocks a here eligible) = inr (refl, refl)
  shape (configures source variant id t here there follows fits) = inl refl

  build-IsExplained :
      (service : Service F) (request : ControllerTickRequest F) (planned : List String)
      (c : CandidateScore F) (rejected : Dict Rejection) (candidates : List (CandidateScore F))
      → IsCandidate service.host service.config (assets_of service request) request planned c
      → IsExplained request
          (build_action request.binding_id c)
          (build_decision_event service request c rejected candidates)
  unfolding build_action build_decision_event exposed_asset_id
  build-IsExplained service request planned c rejected candidates h = elim (shape h) [
    | inl follows ↦ record {
      binding = rw follows refl;
      event_binding = refl;
      attacker = refl;
      kind = rw follows refl;
      exposed = rw follows refl;
      evidence = refl;
    }
    | inr (opens, untargeted) ↦ record {
      binding = rw opens refl;
      event_binding = refl;
      attacker = refl;
      kind = rw opens refl;
      exposed = rw (opens, untargeted) refl;
      evidence = refl;
    }
  ]

  decided-AreExplained :
      (service : Service F) (request : ControllerTickRequest F) (r : ControllerTickResponse F)
      → IsDecided service request r
      → AreExplained request r.actions r.decision_events
  unfolding noop_response
  decided-AreExplained service request _ (quiet reason ids rejected why) = (
    record {
      binding = refl;
      event_binding = refl;
      attacker = refl;
      kind = refl;
      exposed = refl;
      evidence = refl;
    },
    tt,
  )
  decided-AreExplained service request _ (main_only c first) =
      (build-IsExplained service request _ c _ _ first.admitted, tt)
  decided-AreExplained service request _ (main_and_explore c d first second new) = (
    build-IsExplained service request _ c _ _ first.admitted,
    (build-IsExplained service request _ d _ _ second.admitted, tt),
  )

  -- A tick records one decision event for each action, in order, which names the binding, the
  -- attacker, the kind of the action, the asset that the action exposes, and the evidence of the
  -- profile.
  pub tick-AreExplained :
      (service : Service F) (request : ControllerTickRequest F)
      → AreExplained request (tick service request).actions (tick service request).decision_events
  tick-AreExplained service request =
      decided-AreExplained service request (tick service request) (tick-IsDecided service request)
