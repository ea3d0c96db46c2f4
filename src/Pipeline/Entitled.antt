-- ===== src/Pipeline/Entitled.antt =====
-- Which assets an attacker can get by a tick of services/controller/domain.py whose actions
-- services/orchestrator/domain.py applies.
use mathlib.Core.List.{Memᴰ}
use mathlib.Core.Option.{some-injective}
use mathlib.Core.Path.{subst}
use honeypot_fyp.Prelude.{
  String, Bool, true, false, ◌||◌, List, [], ◌∷◌, ◌++◌, Option, none, some, ◌≡◌, ◌⊎◌, refl, sym,
  inl, inr, arith, ◌==◌, string_eq, eq_iff, member, member-append, Bool-cases, ap,
}
use honeypot_fyp.Common.Dict.{Dict}
use honeypot_fyp.Common.Floats.{FloatOps}
use honeypot_fyp.Common.Json.{Json}
use honeypot_fyp.Common.Text.{is_blank, non_blank}
use honeypot_fyp.Contracts.Assets.{AssetDefinition}
use honeypot_fyp.Contracts.Actions.{ActionType, ControllerAction, ControllerTickRequest}
use honeypot_fyp.Contracts.Bindings.{BindingRecord}
use honeypot_fyp.Binding.Repository.{get_by_binding}
use honeypot_fyp.Binding.Service.{ok}
use honeypot_fyp.Controller.Variants.{configuration_variants}
use honeypot_fyp.Controller.Scores.{CandidateScore, is_configure}
use honeypot_fyp.Controller.Eligible.{IsEligible}
use honeypot_fyp.Controller.Admission.{IsTarget, IsFollowOn, Admitted, unlocks, configures}
use honeypot_fyp.Controller.Candidates.{IsCandidate}
use honeypot_fyp.Controller.Records.{Service, ControllerTickResponse}
use honeypot_fyp.Controller.Decisions.{noop_response, build_action}
use honeypot_fyp.Controller.Tick.{assets_of, plan, plan_target, tick}
use honeypot_fyp.Controller.Opens.{opens, build-IsStep}
use honeypot_fyp.Controller.Reveals.{IsDecided, quiet, main_only, main_and_explore, tick-IsDecided}
use honeypot_fyp.Orchestrator.Runtime.{OrchestratorApplyResponse}
use honeypot_fyp.Orchestrator.Steps.{Orchestrator, World, configure_task, unlock_task, task_of}
use honeypot_fyp.Orchestrator.Service.{apply}
use honeypot_fyp.Orchestrator.Applied.{opened_by, target_list, opened_by_actions}
use honeypot_fyp.Orchestrator.Promise.{apply-IsApplied}

-- The asset is one of the catalog that passes the gates with the ids `planned` open, or the target of a
-- follow-on configuration of an asset of the catalog that is open in the request, with those ids open.
pub data IsEntitled {F : Type 0} ⦃ops : FloatOps F⦄ (service : Service F)
    (request : ControllerTickRequest F) (planned : List String) (id : String) : Type 0 where
  eligible :
      (asset : AssetDefinition F)
      → asset.asset_id ≡ id
      → Memᴰ asset (assets_of service request)
      → IsEligible service.host service.config asset request planned
      → IsEntitled service request planned id
  configured :
      (source : AssetDefinition F) (variant : Dict (Json F)) (configuration_id : String)
      → Memᴰ source (assets_of service request)
      → Memᴰ variant (configuration_variants source)
      → IsFollowOn request source variant configuration_id
      → IsTarget service.host (assets_of service request) source planned (some id)
      → IsEntitled service request planned id

-- The asset may be gained with the ids `unlocked` open, or with these and the one that the first action
-- opens, which may itself be gained.
pub data IsGained {F : Type 0} ⦃ops : FloatOps F⦄ (service : Service F)
    (request : ControllerTickRequest F) (unlocked : List String) (id : String)
    : List (ControllerAction F) → Type 0 where
  at_once :
      (actions : List (ControllerAction F))
      → IsEntitled service request unlocked id
      → IsGained service request unlocked id actions
  after_first :
      (a b : ControllerAction F) (x : String)
      → opens a ≡ some x
      → IsEntitled service request unlocked x
      → IsEntitled service request (unlocked ++ x ∷ []) id
      → IsGained service request unlocked id (a ∷ b ∷ [])

added : (a b c : Bool) → a ≡ (b || c) → a ≡ true → b ≡ false → c ≡ true
added a b c e h k = ground arith

in_second :
    (x : String) (xs ys : List String)
    → member x (xs ++ (ys ++ [])) ≡ true
    → member x xs ≡ false
    → member x ys ≡ true
in_second x xs ys h k = ground (arith, member-append x xs (ys ++ []), member-append x ys [], h, k)

unlock_task-member :
    (F : Type 0) (asset_id x : String)
    → member x (opened_by {F = F} (unlock_task (non_blank (some asset_id)))) ≡ true
    → asset_id ≡ x
unfolding unlock_task
unlock_task-member F asset_id x h = elim (Bool-cases (is_blank asset_id)) [
  | inl blank ↦ impossible asset_id x (rw blank at h)
  | inr named ↦ found asset_id x (rw named at h)
]
  where
    impossible : (asset_id x : String) → false ≡ true → asset_id ≡ x
    impossible asset_id x h = cc

    found : (asset_id x : String) → (asset_id == x || false) ≡ true → asset_id ≡ x
    found asset_id x h = ground (arith, eq_iff asset_id x)

target_list-member :
    (target : Option String) (x : String)
    → member x (target_list (non_blank target)) ≡ true
    → target ≡ some x
target_list-member none x h = cc
target_list-member (some t) x h = elim (Bool-cases (is_blank t)) [
  | inl blank ↦ impossible t x (rw blank at h)
  | inr named ↦ found t x (rw named at h)
]
  where
    impossible : (t x : String) → false ≡ true → some t ≡ some x
    impossible t x h = cc

    found : (t x : String) → (t == x || false) ≡ true → some t ≡ some x
    found t x h = ap some ((eq_iff t x).0 (ground (arith, h)))

module _ {F : Type 0} where
  configure_task-member :
      (p q target : Option String) (settings : Dict (Json F)) (x : String)
      → member x (opened_by (configure_task p q (non_blank target) settings)) ≡ true
      → target ≡ some x
  unfolding configure_task
  configure_task-member (some p) (some q) target settings x h = target_list-member target x h
  configure_task-member (some p) none target settings x h = cc
  configure_task-member none q target settings x h = cc

non_blank-some : (t : Option String) (x : String) → non_blank t ≡ some x → t ≡ some x
non_blank-some none x h = cc
non_blank-some (some t) x h = elim (Bool-cases (is_blank t)) [
  | inl blank ↦ impossible t x (rw blank at h)
  | inr named ↦ rw named at h
]
  where
    impossible : (t x : String) → none ≡ some x → some t ≡ some x
    impossible t x h = cc

module _ {F : Type 0} ⦃ops : FloatOps F⦄ (service : Service F)
    (request : ControllerTickRequest F) where
  abbrev IsReveal : List String → CandidateScore F → Type 0
  IsReveal = IsCandidate service.host service.config (assets_of service request) request

  abbrev Shape : List String → AssetDefinition F → ActionType → Option String → Type 0
  Shape planned a t target =
      ((is_configure t ≡ false)
        × Memᴰ a (assets_of service request)
        × IsEligible service.host service.config a request planned)
      ⊎ ((is_configure t ≡ true)
          × ((x : String) → target ≡ some x → IsEntitled service request planned x))

  shape :
      {planned : List String} {a : AssetDefinition F} {t : ActionType} {i j : Option String}
      {settings : Dict (Json F)}
      → Admitted service.host service.config
          (assets_of service request)
          request
          planned
          a
          t
          i
          j
          settings
      → Shape planned a t j
  shape (unlocks a here e) = inl (refl, here, e)
  shape {planned} (configures source variant id t here there follows fits) =
      inr (refl, λ x named. configured source variant id here there follows (rw (sym named) fits))

  action_IsEntitled :
      (planned : List String) (c : CandidateScore F) (x : String)
      → IsReveal planned c
      → member x (opened_by (task_of (build_action request.binding_id c))) ≡ true
      → IsEntitled service request planned x
  unfolding task_of build_action
  action_IsEntitled planned c x h k = elim (shape h) [
    | inl (opens, here, e) ↦
        eligible c.asset (unlock_task-member F c.asset.asset_id x (rw opens at k)) here e
    | inr (follows, entitles) ↦
        entitles x (configure_task-member _ _ c.target_asset_id c.settings x (rw follows at k))
  ]

  opens_IsEntitled :
      (planned : List String) (c : CandidateScore F) (x : String)
      → IsReveal planned c
      → opens (build_action request.binding_id c) ≡ some x
      → IsEntitled service request planned x
  unfolding build_action
  opens_IsEntitled planned c x h k = elim (shape h) [
    | inl (opens, here, e) ↦
        eligible c.asset (some-injective c.asset.asset_id x (rw opens at k)) here e
    | inr (follows, entitles) ↦ entitles x (non_blank-some c.target_asset_id x (rw follows at k))
  ]

  -- What the second reveal gains, by what the first one opens.
  second_IsGained :
      (a b : ControllerAction F) (unlocked : List String) (o : Option String) (x : String)
      → opens a ≡ o
      → ((y : String) → o ≡ some y → IsEntitled service request unlocked y)
      → IsEntitled service request (plan_target o unlocked) x
      → IsGained service request unlocked x (a ∷ b ∷ [])
  second_IsGained a b unlocked none x e f h = at_once (a ∷ b ∷ []) h
  second_IsGained a b unlocked (some y) x e f h = after_first a b y e (f y refl) h

  actions_IsGained :
      (r : ControllerTickResponse F) (x : String)
      → IsDecided service request r
      → member x (opened_by_actions r.actions) ≡ true
      → IsGained service request request.unlocked_asset_ids x r.actions
  unfolding noop_response opened_by_actions task_of
  actions_IsGained _ x (quiet reason ids rejected why) h = cc
  actions_IsGained _ x (main_only c first) h =
      let a = build_action request.binding_id c in
      at_once (a ∷ []) (
        action_IsEntitled request.unlocked_asset_ids c x first.admitted
          (ground (arith, member-append x (opened_by (task_of a)) [], h)))
  actions_IsGained _ x (main_and_explore c d first second new) h =
      let a = build_action request.binding_id c in
      let b = build_action request.binding_id d in
      let unlocked = request.unlocked_asset_ids in
      elim (Bool-cases (member x (opened_by (task_of a)))) [
        | inl main ↦ at_once (a ∷ b ∷ []) (action_IsEntitled unlocked c x first.admitted main)
        | inr other ↦
            second_IsGained a b unlocked (opens a) x refl
              (λ y e. opens_IsEntitled unlocked c y first.admitted e)
              (rw (build-IsStep service request unlocked c first.admitted).1 at (
                action_IsEntitled (plan c unlocked) d x second.admitted
                  (in_second x (opened_by (task_of a)) (opened_by (task_of b)) h other)))
      ]

  -- Where the binding of a request is stored, and the request sends the unlocked assets of that
  -- binding, the actions of its tick can be applied, whatever the catalog, the scores and the
  -- runtime are. Afterwards every unlocked asset of the binding was unlocked before, or is gained
  -- at once: it is an asset of the catalog that passes the hard gates with the unlocked assets of
  -- the binding open, or the target of a follow-on configuration of one of these, and is the source
  -- itself or not open; or the tick has two actions and it is gained so with one more asset open,
  -- which the first of the actions opens and which is itself gained at once.
  pub apply-tick :
      {R : Type 0} (o : Orchestrator F R) (w : World R) (r : BindingRecord)
      → get_by_binding request.binding_id w.records ≡ some r
      → request.unlocked_asset_ids ≡ r.unlocked_assets
      → let actions = (tick service request).actions in
        (response : OrchestratorApplyResponse F) × (w' : World R) × (apply o
            (record { binding_id = request.binding_id; actions = actions })
            w
          ≡ ok (response, w'))
        × (get_by_binding request.binding_id w'.records ≡ some response.binding)
        × ((x : String)
            → member x response.binding.unlocked_assets ≡ true
            → (member x r.unlocked_assets ≡ true)
              ⊎ IsGained service request r.unlocked_assets x actions)
  apply-tick o w r found sent =
      let actions = (tick service request).actions in
      let (response, w', runs, applied) =
        apply-IsApplied o (record { binding_id = request.binding_id; actions = actions }) w r
          found in
      (
        response,
        w',
        runs,
        applied.stored,
        λ x h. elim (Bool-cases (member x r.unlocked_assets)) [
          | inl before ↦ inl before
          | inr new ↦ inr (
              subst (λ ids. IsGained service request ids x actions) sent
                (actions_IsGained (tick service request) x (tick-IsDecided service request)
                  (added _ _ _ (applied.opened x) h new)))
        ],
      )
