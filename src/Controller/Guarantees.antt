-- ===== src/Controller/Guarantees.antt =====
-- What the actions of a tick of services/controller/domain.py keep, whatever the catalog and the scores.
use Prim.Native.Nat.{◌≤◌, ◌<◌, ◌+◌}
use honeypot_fyp.Prelude.{
  String, true, false, ◌||◌, List, [], ◌∷◌, ◌++◌, Option, none, some, ◌≡◌, refl, ◌⊎◌, inl, inr,
  arith, All, Bool-cases, member, Distinct, length, string_eq, member-append, length-append, eq_iff,
  ◌==◌,
}
use honeypot_fyp.Common.Dict.{Dict}
use honeypot_fyp.Common.Floats.{FloatOps}
use honeypot_fyp.Common.Json.{Json, Host}
use honeypot_fyp.Contracts.Assets.{AssetDefinition}
use honeypot_fyp.Contracts.Actions.{ActionType, unlock, ControllerAction, ControllerTickRequest}
use honeypot_fyp.Controller.Settings.{Config}
use honeypot_fyp.Controller.Scores.{CandidateScore, is_unlock, is_configure}
use honeypot_fyp.Common.Text.{non_blank}
use honeypot_fyp.Controller.Records.{Service, ControllerTickResponse}
use honeypot_fyp.Controller.Decisions.{noop_response, build_action}
use honeypot_fyp.Controller.Eligible.{IsEligible}
use honeypot_fyp.Controller.Admission.{Admitted, unlocks, configures}
use honeypot_fyp.Controller.Candidates.{IsCandidate}
use honeypot_fyp.Controller.Opens.{AreSteps, newly_opened, newly_opened-AreNew, decided-AreSteps}
use honeypot_fyp.Controller.Tick.{assets_of, plan, plan_target, tick}
use honeypot_fyp.Controller.Reveals.{IsDecided, quiet, main_only, main_and_explore, tick-IsDecided}

-- the asset that an action unlocks
abbrev pub unlocked_by : ActionType → Option String → List String
unlocked_by unlock (some id) = id ∷ []
unlocked_by _ _ = []

plan_target-length :
    (t : Option String) (planned : List String) → length planned ≤ length (plan_target t planned)
plan_target-length none planned = omega arith
plan_target-length (some t) planned = omega (arith, length-append planned (t ∷ []))

plan_target-member :
    (t : Option String) (planned : List String) (k : String)
    → member k (plan_target t planned) ≡ false
    → member k planned ≡ false
plan_target-member none planned k h = h
plan_target-member (some t) planned k h = ground (arith, h, member-append k planned (t ∷ []))

second_fresh :
    (i j : String) (xs : List String) → member j (xs ++ i ∷ []) ≡ false → (j == i || false) ≡ false
second_fresh i j xs h = ground (arith, member-append j xs (i ∷ []), eq_iff i j, eq_iff j i)

module _ {F : Type 0} where
  -- The ids of the assets that the actions unlock.
  unfoldable pub unlock_ids : List (ControllerAction F) → List String
  unlock_ids [] = []
  unlock_ids (a ∷ rest) = unlocked_by a.action_type a.asset_id ++ unlock_ids rest

  plan-length :
      (c : CandidateScore F) (planned : List String) → length planned ≤ length (plan c planned)
  unfolding plan
  plan-length c planned = elim (Bool-cases (is_unlock c.action_type)) [
    | inl opens ↦ rw opens (omega (arith, length-append planned (c.asset.asset_id ∷ [])))
    | inr keeps ↦ rw keeps (plan_target-length (non_blank c.target_asset_id) planned)
  ]

  plan-member :
      (c : CandidateScore F) (planned : List String) (k : String)
      → member k (plan c planned) ≡ false
      → member k planned ≡ false
  unfolding plan
  plan-member c planned k h = elim (Bool-cases (is_unlock c.action_type)) [
    | inl opens ↦ ground (arith, rw opens at h, member-append k planned (c.asset.asset_id ∷ []))
    | inr keeps ↦ plan_target-member (non_blank c.target_asset_id) planned k (rw keeps at h)
  ]

  plan-unlock :
      (c : CandidateScore F) (planned : List String)
      → is_unlock c.action_type ≡ true
      → plan c planned ≡ planned ++ c.asset.asset_id ∷ []
  unfolding plan
  plan-unlock c planned h = rw h refl

module _ {F : Type 0} ⦃ops : FloatOps F⦄ where
  -- What an action unlocks, by the kind of the candidate.
  unlocking :
      {host : Host F} {config : Config F} {assets : List (AssetDefinition F)}
      {request : ControllerTickRequest F} {planned : List String} {a : AssetDefinition F}
      {t : ActionType} {i j : Option String} {st : Dict (Json F)}
      → Admitted host config assets request planned a t i j st
      → ((is_unlock t ≡ true) × (is_configure t ≡ false) × IsEligible host config a request planned)
        ⊎ ((is_unlock t ≡ false) × (is_configure t ≡ true))
  unlocking (unlocks a here eligible) = inl (refl, refl, eligible)
  unlocking (configures source variant id t here there follows fits) = inr (refl, refl)

  unlock_ids-build :
      (b : String) (c : CandidateScore F) (rest : List (ControllerAction F))
      → is_unlock c.action_type ≡ true
      → is_configure c.action_type ≡ false
      → unlock_ids (build_action b c ∷ rest) ≡ c.asset.asset_id ∷ unlock_ids rest
  unfolding unlock_ids build_action
  unlock_ids-build b c rest h k = rw k refl

  unlock_ids-build_configure :
      (b : String) (c : CandidateScore F) (rest : List (ControllerAction F))
      → is_configure c.action_type ≡ true
      → unlock_ids (build_action b c ∷ rest) ≡ unlock_ids rest
  unfolding unlock_ids build_action
  unlock_ids-build_configure b c rest k = rw k refl

  -- The unlocks among the actions open new assets, no asset twice, and do not exceed the cap.
  abbrev pub IsWithin : Config F → List String → List String → Type 0
  IsWithin config unlocked ids =
      Distinct ids
      × All (λ id. member id unlocked ≡ false) ids
      × (length unlocked ≤ config.unlock_cap → length unlocked + length ids ≤ config.unlock_cap)

  one-IsWithin :
      (service : Service F) (request : ControllerTickRequest F) (c : CandidateScore F)
      → IsCandidate service.host service.config
          (assets_of service request)
          request
          request.unlocked_asset_ids
          c
      → IsWithin service.config request.unlocked_asset_ids
          (unlock_ids (build_action request.binding_id c ∷ []))
  unfolding unlock_ids
  one-IsWithin service request c h = elim (unlocking h) [
    | inl (opens, other, e) ↦
        rw (unlock_ids-build request.binding_id c [] opens other)
          ((refl, tt), (e.closed, tt), λ k. omega (arith, e.room))
    | inr (other, follows) ↦
        rw (unlock_ids-build_configure request.binding_id c [] follows)
          (tt, tt, λ k. omega (arith, k))
  ]

  two-IsWithin :
      (service : Service F) (request : ControllerTickRequest F) (c d : CandidateScore F)
      → IsCandidate service.host service.config
          (assets_of service request)
          request
          request.unlocked_asset_ids
          c
      → IsCandidate service.host service.config
          (assets_of service request)
          request
          (plan c request.unlocked_asset_ids)
          d
      → IsWithin service.config request.unlocked_asset_ids
          (unlock_ids (build_action request.binding_id c ∷ build_action request.binding_id d ∷ []))
  unfolding unlock_ids
  two-IsWithin service request c d h k =
      let unlocked = request.unlocked_asset_ids in
      elim (unlocking h) [
        | inl (opens, other, e) ↦
            rw
              (unlock_ids-build request.binding_id c (build_action request.binding_id d ∷ []) opens
                other)
              (elim (unlocking k) [
                | inl (opens', other', e') ↦
                    let closed : member d.asset.asset_id (unlocked ++ c.asset.asset_id ∷ [])
                        ≡ false =
                      rw (plan-unlock c unlocked opens) at e'.closed in
                    let room : length (unlocked ++ c.asset.asset_id ∷ [])
                        < service.config.unlock_cap =
                      rw (plan-unlock c unlocked opens) at e'.room in
                    rw (unlock_ids-build request.binding_id d [] opens' other') (
                      (second_fresh c.asset.asset_id d.asset.asset_id unlocked closed, (refl, tt)),
                      (e.closed, (plan-member c unlocked d.asset.asset_id e'.closed, tt)),
                      λ k. omega (arith, room, length-append unlocked (c.asset.asset_id ∷ [])),
                    )
                | inr (other', follows') ↦
                    rw (unlock_ids-build_configure request.binding_id d [] follows')
                      ((refl, tt), (e.closed, tt), λ k. omega (arith, e.room))
              ])
        | inr (other, follows) ↦
            rw
              (unlock_ids-build_configure request.binding_id c
                (build_action request.binding_id d ∷ []) follows)
              (elim (unlocking k) [
                | inl (opens', other', e') ↦
                    rw (unlock_ids-build request.binding_id d [] opens' other') (
                      (refl, tt),
                      (plan-member c unlocked d.asset.asset_id e'.closed, tt),
                      λ k. omega (arith, e'.room, plan-length c unlocked),
                    )
                | inr (other', follows') ↦
                    rw (unlock_ids-build_configure request.binding_id d [] follows')
                      (tt, tt, λ k. omega (arith, k))
              ])
      ]

  decided-IsWithin :
      (service : Service F) (request : ControllerTickRequest F) (r : ControllerTickResponse F)
      → IsDecided service request r
      → IsWithin service.config request.unlocked_asset_ids (unlock_ids r.actions)
  unfolding noop_response unlock_ids
  decided-IsWithin service request _ (quiet reason ids rejected why) =
      (tt, tt, λ k. omega (arith, k))
  decided-IsWithin service request _ (main_only c first) =
      one-IsWithin service request c first.admitted
  decided-IsWithin service request _ (main_and_explore c d first second new) =
      two-IsWithin service request c d first.admitted second.admitted

  -- The assets that the actions of a tick unlock are all different, none of them is open already,
  -- and if the open assets are within the unlock cap, then so are the open and the unlocked assets
  -- together. In order, each unlock opens an asset that is not open by then, where those open by
  -- then, the targets of configurations among them, are below the cap; each configuration is of an
  -- asset that was open before the tick, and its target is none, that asset, or an asset that is
  -- not open by then, whatever the cap. The assets that unlocks and configurations open, other than
  -- those open before, are all different.
  pub tick_unlocks :
      (service : Service F) (request : ControllerTickRequest F)
      → let actions = (tick service request).actions in
        IsWithin service.config request.unlocked_asset_ids (unlock_ids actions)
        × AreSteps service.config.unlock_cap request.unlocked_asset_ids request.unlocked_asset_ids
            actions
        × Distinct (newly_opened request.unlocked_asset_ids actions)
        × All
            (λ id. member id request.unlocked_asset_ids ≡ false)
            (newly_opened request.unlocked_asset_ids actions)
  tick_unlocks service request =
      let decided = tick-IsDecided service request in
      let steps = decided-AreSteps service request (tick service request) decided in
      let before = request.unlocked_asset_ids in
      let (distinct, new) =
        newly_opened-AreNew service.config.unlock_cap before before (tick service request).actions
          steps in
      (decided-IsWithin service request (tick service request) decided, steps, distinct, new)
