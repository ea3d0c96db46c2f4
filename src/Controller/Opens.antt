-- ===== src/Controller/Opens.antt =====
-- Which assets the actions of services/controller/domain.py open, one after the other: by an unlock, or as the
-- target of a configuration.
use Prim.Native.Nat.{◌<◌}
use mathlib.Core.Option.{some-injective}
use honeypot_fyp.Prelude.{
  ℕ, String, true, false, not, ◌||◌, List, [], ◌∷◌, ◌++◌, Option, none, some, ◌≡◌, refl, sym, ap,
  ◌∙◌, ◌⊎◌, inl, inr, arith, All, Bool-cases, filter, member, Distinct, length, string_eq,
  member-append, eq_iff, ◌==◌,
}
use honeypot_fyp.Common.Dict.{Dict}
use honeypot_fyp.Common.Floats.{FloatOps}
use honeypot_fyp.Common.Json.{Json, Host}
use honeypot_fyp.Common.Text.{non_blank, is_blank}
use honeypot_fyp.Contracts.Assets.{AssetDefinition}
use honeypot_fyp.Contracts.Actions.{
  ActionType, unlock, configure, noop, ControllerAction, ControllerTickRequest,
}
use honeypot_fyp.Controller.Scores.{CandidateScore, is_unlock, is_configure}
use honeypot_fyp.Controller.Decisions.{noop_response, build_action}
use honeypot_fyp.Controller.Admission.{Admitted, unlocks, configures, IsTarget, no_target, target}
use honeypot_fyp.Controller.Candidates.{IsCandidate}
use honeypot_fyp.Controller.Records.{Service, ControllerTickResponse}
use honeypot_fyp.Controller.Tick.{assets_of, plan, plan_target}
use honeypot_fyp.Controller.Reveals.{IsDecided, quiet, main_only, main_and_explore}

abbrev pub opened_by : ActionType → Option String → Option String → Option String
opened_by unlock asset_id target_id = asset_id
opened_by configure asset_id target_id = non_blank target_id
opened_by _ asset_id target_id = none

abbrev pub IsTargetOf : String → List String → Option String → Type 0
IsTargetOf source now none = Unit
IsTargetOf source now (some t) = (t == source || not (member t now)) ≡ true

-- What an action may do, given the ids that were open before the tick and those that are open by now: an
-- unlock opens an asset that is not open, below the cap; a configuration is of an asset that was open,
-- and its target is that asset or is not open.
abbrev pub IsStep :
    ℕ → List String → List String → ActionType → Option String → Option String → Type 0
IsStep cap before now unlock (some id) target_id = (member id now ≡ false) × (length now < cap)
IsStep cap before now configure (some source) target_id =
    (member source before ≡ true) × IsTargetOf source now (non_blank target_id)
IsStep cap before now noop asset_id target_id = Unit
IsStep cap before now _ asset_id target_id = ⊥

target-new :
    (before now : List String) (source id : String) (t : Option String)
    → member source before ≡ true
    → IsTargetOf source now t
    → t ≡ some id
    → (member id before ≡ true) ⊎ (member id now ≡ false)
target-new before now source id none o h e = cc
target-new before now source id (some t) o h e =
    let is : t ≡ id = some-injective t id e in
    elim (Bool-cases (t == source)) [
      | inl same ↦ inl (ap (λ m. member m before) (sym is ∙ (eq_iff t source).0 same) ∙ o)
      | inr other ↦ inr (rw (sym is) (ground arith))
    ]

-- An action opens an asset that was open before the tick, or one that is not open by now.
step-new :
    (cap : ℕ) (before now : List String) (t : ActionType) (i j : Option String) (id : String)
    → IsStep cap before now t i j
    → opened_by t i j ≡ some id
    → (member id before ≡ true) ⊎ (member id now ≡ false)
step-new cap before now unlock (some x) j id h e =
    inr (ap (λ m. member m now) (sym (some-injective x id e)) ∙ h.0)
step-new cap before now unlock none j id h e = absurd h
step-new cap before now configure (some source) j id h e =
    target-new before now source id (non_blank j) h.0 h.1 e
step-new cap before now configure none j id h e = absurd h
step-new cap before now noop i j id h e = cc
step-new cap before now ActionType.bind i j id h e = absurd h
step-new cap before now ActionType.recycle i j id h e = absurd h
step-new cap before now ActionType.route_update i j id h e = absurd h

module _ {F : Type 0} where
  abbrev pub opens : ControllerAction F → Option String
  opens a = opened_by a.action_type a.asset_id a.target_asset_id

  -- Each action may be done after those before it.
  abbrev pub AreSteps : ℕ → List String → List String → List (ControllerAction F) → Type 0
  AreSteps cap before now [] = Unit
  AreSteps cap before now (a ∷ rest) =
      IsStep cap before now a.action_type a.asset_id a.target_asset_id
      × AreSteps cap before (plan_target (opens a) now) rest

  -- The assets that were not open, and are opened.
  abbrev pub newly_opened : List String → List (ControllerAction F) → List String
  newly_opened before [] = []
  newly_opened before (a ∷ rest) =
      filter (λ id. not (member id before)) (plan_target (opens a) []) ++ newly_opened before rest

-- Ids that are different from one another and from those that are open by now.
abbrev pub AreNew : List String → List String → Type 0
AreNew now ids = Distinct ids × All (λ id. member id now ≡ false) ids

none_equal :
    (t : String) (now ids : List String)
    → All (λ id. member id (now ++ t ∷ []) ≡ false) ids
    → (member t ids ≡ false) × All (λ id. member id now ≡ false) ids
none_equal t now [] h = (refl, tt)
none_equal t now (x ∷ rest) h =
    let (later, kept) = none_equal t now rest h.1 in
    let split = member-append x now (t ∷ []) in
    (ground (arith, split, h.0, later, eq_iff t x, eq_iff x t), (ground (arith, split, h.0), kept))

newly_next :
    (before now ids : List String) (o : Option String)
    → ((id : String) → o ≡ some id → (member id before ≡ true) ⊎ (member id now ≡ false))
    → AreNew (plan_target o now) ids
    → AreNew now (filter (λ id. not (member id before)) (plan_target o []) ++ ids)
newly_next before now ids none step h = h
newly_next before now ids (some t) step h =
    let (fresh, kept) = none_equal t now ids h.1 in
    elim (Bool-cases (member t before)) [
      | inl old ↦ rw old (h.0, kept)
      | inr new ↦ elim (step t refl) [
        | inl old ↦ cc
        | inr absent ↦ rw new ((fresh, h.0), (absent, kept))
      ]
    ]

module _ {F : Type 0} where
  pub newly_opened-AreNew :
      (cap : ℕ) (before now : List String) (actions : List (ControllerAction F))
      → AreSteps cap before now actions
      → AreNew now (newly_opened before actions)
  newly_opened-AreNew cap before now [] h = (tt, tt)
  newly_opened-AreNew cap before now (a ∷ rest) h =
      newly_next before now (newly_opened before rest) (opens a)
        (λ id e. step-new cap before now a.action_type a.asset_id a.target_asset_id id h.0 e)
        (newly_opened-AreNew cap before (plan_target (opens a) now) rest h.1)

IsTarget-IsTargetOf :
    {F : Type 0} (host : Host F) (assets : List (AssetDefinition F)) (source : AssetDefinition F)
    (now : List String) (t : Option String)
    → IsTarget host assets source now t
    → IsTargetOf source.asset_id now (non_blank t)
IsTarget-IsTargetOf host assets source now _ no_target = tt
IsTarget-IsTargetOf host assets source now _ (target id asset here runs other) =
    elim (Bool-cases (is_blank id)) [ inl blank ↦ rw blank tt | inr named ↦ rw named other ]

module _ {F : Type 0} ⦃ops : FloatOps F⦄ (service : Service F)
    (request : ControllerTickRequest F) where
  abbrev IsReveal : List String → CandidateScore F → Type 0
  IsReveal = IsCandidate service.host service.config (assets_of service request) request

  abbrev Shape : List String → AssetDefinition F → ActionType → Option String → Type 0
  Shape now a t j =
      ((is_unlock t ≡ true)
        × (is_configure t ≡ false)
        × (member a.asset_id now ≡ false)
        × (length now < service.config.unlock_cap))
      ⊎ ((is_unlock t ≡ false)
          × (is_configure t ≡ true)
          × (member a.asset_id request.unlocked_asset_ids ≡ true)
          × IsTargetOf a.asset_id now (non_blank j))

  shape :
      {now : List String} {a : AssetDefinition F} {t : ActionType} {i j : Option String}
      {settings : Dict (Json F)}
      → Admitted service.host service.config
          (assets_of service request)
          request
          now
          a
          t
          i
          j
          settings
      → Shape now a t j
  shape (unlocks a here e) = inl (refl, refl, e.closed, e.room)
  shape {now} (configures source variant id t here there follows fits) = inr (
    refl,
    refl,
    follows.source_open,
    IsTarget-IsTargetOf service.host (assets_of service request) source now t fits,
  )

  -- The action of a reveal may be done, and opens what its reveal plans.
  pub build-IsStep :
      (now : List String) (c : CandidateScore F)
      → IsReveal now c
      → let a = build_action request.binding_id c in
        IsStep service.config.unlock_cap request.unlocked_asset_ids now a.action_type a.asset_id
          a.target_asset_id
        × (plan c now ≡ plan_target (opens a) now)
  unfolding build_action plan
  build-IsStep now c h = elim (shape h) [
    | inl (is, other, closed, room) ↦ rw (is, other) ((closed, room), refl)
    | inr (other, is, here, fits) ↦ rw (is, other) ((here, fits), refl)
  ]

  pub decided-AreSteps :
      (r : ControllerTickResponse F)
      → IsDecided service request r
      → AreSteps service.config.unlock_cap request.unlocked_asset_ids request.unlocked_asset_ids
          r.actions
  unfolding noop_response
  decided-AreSteps _ (quiet reason ids rejected why) = (tt, tt)
  decided-AreSteps _ (main_only c first) =
      ((build-IsStep request.unlocked_asset_ids c first.admitted).0, tt)
  decided-AreSteps _ (main_and_explore c d first second new) =
      let (may, plans) = build-IsStep request.unlocked_asset_ids c first.admitted in
      (
        may,
        (rw (plans) at (build-IsStep (plan c request.unlocked_asset_ids) d second.admitted).0, tt),
      )
