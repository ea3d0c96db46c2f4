-- ===== src/Controller/Best.antt =====
-- That a tick of services/controller/domain.py reveals the best candidate of its main pass.
use mathlib.Core.List.{Memᴰ}
use Prim.Native.Nat.{◌≤◌}
use honeypot_fyp.Prelude.{
  ℕ, String, Bool, true, false, not, ◌&&◌, ◌||◌, List, [], ◌∷◌, ◌≡◌, refl, inl, inr, arith, ltb,
  nat_beq, if◌then◌else◌, All, All-map, Bool-cases, length, any, all, is_empty, member, string_eq,
}
use honeypot_fyp.Common.Floats.{FloatOps, flt, feq}
use honeypot_fyp.Common.Text.Order.{text_lt}
use honeypot_fyp.Contracts.Assets.{ProfileSnapshot}
use honeypot_fyp.Contracts.Actions.{ControllerAction, ControllerTickRequest}
use honeypot_fyp.Controller.Signals.{scanner_only_profile}
use honeypot_fyp.Controller.Scores.{CandidateScore, is_configure}
use honeypot_fyp.Controller.Order.{
  comes_before, structural_priority_rank, exposed_asset_id, is_bootstrap, id_or,
}
use honeypot_fyp.Controller.Records.{Service, DecisionEvent, ControllerTickResponse}
use honeypot_fyp.Controller.Decisions.{build_action, build_decision_event}
use honeypot_fyp.Controller.Selection.{IsFirstLeast, here, there, before_asym}
use honeypot_fyp.Controller.Tick.{tick}
use honeypot_fyp.Controller.Reveals.{
  main_candidates, main_rejected, scanning, nothing, IsDecided, quiet, main_only, main_and_explore,
  tick-IsDecided,
}

-- exploits of public applications, network discovery, and active scanning
abbrev pub scans : List String
scans = "T1190" ∷ "T1189" ∷ "T1046" ∷ "T1595" ∷ "T1595.001" ∷ "T1595.002" ∷ "T1595.003" ∷ []

all-not-any : (p : String → Bool) (xs : List String) → all p xs ≡ not (any (λ x. not (p x)) xs)
all-not-any p [] = refl
all-not-any p (x ∷ xs) = ground (arith, all-not-any p xs)

nat_step :
    (x y : ℕ) (p q : Bool)
    → (if not (nat_beq x y) then ltb y x else p) ≡ false
    → (p ≡ false → q ≡ true)
    → (ltb x y || (nat_beq x y && q)) ≡ true
nat_step x y p q h step = ground arith

module _ {F : Type 0} where
  -- A bootstrap goes before a configuration, and that before an unlock.
  abbrev pub precedence : CandidateScore F → ℕ
  precedence c =
      if is_bootstrap c.candidate_type then 2 else if is_configure c.action_type then 1 else 0

  -- The profile has another technique than those of a scanner, no technique at all, or a trace of a request that
  -- a rule matched or that went to an internal asset.
  abbrev pub shows_context : ProfileSnapshot F → Bool
  shows_context profile =
      is_empty profile.recent_techniques
      || any (λ t. not (member t scans)) profile.recent_techniques
      || not (is_empty profile.recent_public_http_indicators)
      || not (is_empty profile.recent_public_http_rules)
      || not (is_empty profile.recent_internal_http_indicators)
      || not (is_empty profile.recent_internal_http_paths)
      || not (is_empty profile.recent_internal_http_rules)

  context_engages :
      (profile : ProfileSnapshot F)
      → shows_context profile ≡ true
      → scanner_only_profile profile ≡ false
  unfolding scanner_only_profile
  context_engages profile h =
      ground (arith, all-not-any (λ t. member t scans) profile.recent_techniques, h)

  abbrev pub shown_id : CandidateScore F → String
  shown_id c = id_or c.target_asset_id c.asset.asset_id

module _ {F : Type 0} ⦃ops : FloatOps F⦄ where
  -- `c` is as good as `d`: by the precedence, and among equals by the gain, the markers, the telemetry, and
  -- the id.
  abbrev pub is_as_good : CandidateScore F → CandidateScore F → Bool
  is_as_good c d =
      ltb (precedence d) (precedence c)
      || (nat_beq (precedence d) (precedence c)
          && (flt d.expected_technique_gain c.expected_technique_gain
              || (feq d.expected_technique_gain c.expected_technique_gain
                  && (ltb d.matched_dependency_marker_count c.matched_dependency_marker_count
                      || (nat_beq d.matched_dependency_marker_count
                            c.matched_dependency_marker_count
                          && (flt d.telemetry_value c.telemetry_value
                              || (feq d.telemetry_value c.telemetry_value
                                  && not (text_lt (shown_id d) (shown_id c)))))))))

  float_step :
      (x y : F) (p q : Bool)
      → (if not (feq x y) then flt y x else p) ≡ false
      → (p ≡ false → q ≡ true)
      → (flt x y || (feq x y && q)) ≡ true
  float_step x y p q h step = ground (arith, ops.fle_total x y)

  not_before : (c d : CandidateScore F) → comes_before d c ≡ false → is_as_good c d ≡ true
  unfolding comes_before structural_priority_rank exposed_asset_id
  not_before c d h = nat_step (precedence d) (precedence c) _ _ h λ h.
      float_step d.expected_technique_gain c.expected_technique_gain _ _ h λ h.
        nat_step d.matched_dependency_marker_count c.matched_dependency_marker_count _ _ h
          λ h. float_step d.telemetry_value c.telemetry_value _ _ h λ h. rw h refl

  not_self : (c : CandidateScore F) → comes_before c c ≡ false
  not_self c = elim (Bool-cases (comes_before c c)) [
    | inl before ↦ before_asym c c before
    | inr after ↦ after
  ]

  least_as_good :
      (cs : List (CandidateScore F)) (c : CandidateScore F)
      → IsFirstLeast cs c
      → Memᴰ c cs × All (λ d. is_as_good c d ≡ true) cs
  least_as_good _ c (here _ rest h) = (
    Memᴰ.head refl,
    (not_before c c (not_self c), All-map _ (λ d. is_as_good c d ≡ true) rest (not_before c) h),
  )
  least_as_good _ c (there x _ rest before f) =
      let (found, best) = least_as_good _ c f in
      (Memᴰ.tail found, (not_before c x (before_asym c x before), best))

  decided_best :
      (service : Service F) (request : ControllerTickRequest F) (r : ControllerTickResponse F)
      → scanner_only_profile request.profile ≡ false
      → is_empty (main_candidates service request) ≡ false
      → IsDecided service request r
      → (c : CandidateScore F) × (rest : List (ControllerAction F)) × (events : List
          (DecisionEvent F))
        × Memᴰ c (main_candidates service request)
        × All (λ d. is_as_good c d ≡ true) (main_candidates service request)
        × (r.actions ≡ build_action request.binding_id c ∷ rest)
        × (r.decision_events
            ≡ build_decision_event service request c
                (main_rejected service request)
                (main_candidates service request)
              ∷ events)
        × (length rest ≤ 1)
  decided_best service request _ engaged some_there (quiet _ _ _ (scanning scans _ _ _)) = cc
  decided_best service request _ engaged some_there (quiet _ _ _ (nothing _ none_there _ _ _)) = cc
  decided_best service request _ engaged some_there (main_only c first) =
      let (there', best) = least_as_good _ c first.least in
      (c, [], [], there', best, refl, refl, omega arith)
  decided_best service request _ engaged some_there (main_and_explore c e first second new) =
      let (there', best) = least_as_good _ c first.least in
      (c, _, _, there', best, refl, refl, omega arith)

  -- Where the profile shows a technique that is not of a scanner, no technique, or a trace of a
  -- matched or internal request, and the main pass has a candidate, the first action of the tick
  -- reveals a candidate of the main pass that is as good as every other: bootstraps go before
  -- configurations and these before unlocks, and among equals the larger gain goes first, then the
  -- more markers, then the larger telemetry, then the lesser id. The first decision event is of
  -- that candidate, and at most one action follows.
  pub tick_best :
      (service : Service F) (request : ControllerTickRequest F)
      → shows_context request.profile ≡ true
      → is_empty (main_candidates service request) ≡ false
      → let r = tick service request in
        (c : CandidateScore F) × (rest : List (ControllerAction F)) × (events : List
          (DecisionEvent F))
        × Memᴰ c (main_candidates service request)
        × All (λ d. is_as_good c d ≡ true) (main_candidates service request)
        × (r.actions ≡ build_action request.binding_id c ∷ rest)
        × (r.decision_events
            ≡ build_decision_event service request c
                (main_rejected service request)
                (main_candidates service request)
              ∷ events)
        × (length rest ≤ 1)
  tick_best service request context some_there =
      decided_best service request (tick service request) (context_engages request.profile context)
        some_there (tick-IsDecided service request)
