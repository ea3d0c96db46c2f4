-- ===== src/Controller/Order.antt =====
-- `_candidate_order_key` of services/controller/domain.py, and `min` by it.
use honeypot_fyp.Prelude.{
  ℕ, String, Bool, true, false, not, List, [], ◌∷◌, Option, none, some, ltb, nat_beq, if◌then◌else◌,
}
use honeypot_fyp.Common.Floats.{FloatOps, flt, feq}
use honeypot_fyp.Common.Text.{is_blank}
use honeypot_fyp.Common.Text.Order.{text_lt}
use honeypot_fyp.Controller.Upgrades.{CandidateType, bootstrap}
use honeypot_fyp.Controller.Scores.{CandidateScore, is_configure}

abbrev pub is_bootstrap : CandidateType → Bool
is_bootstrap bootstrap = true
is_bootstrap _ = false

-- `target_asset_id or asset_id`
abbrev pub id_or : Option String → String → String
id_or none asset_id = asset_id
id_or (some target) asset_id = if is_blank target then asset_id else target

module _ {F : Type 0} where
  -- `_structural_priority_rank`
  unfoldable pub structural_priority_rank : CandidateScore F → ℕ
  structural_priority_rank c =
      if is_bootstrap c.candidate_type then 2 else if is_configure c.action_type then 1 else 0

  -- `_candidate_exposed_asset_id`
  unfoldable pub exposed_asset_id : CandidateScore F → String
  exposed_asset_id c = id_or c.target_asset_id c.asset.asset_id

module _ {F : Type 0} ⦃ops : FloatOps F⦄ where
  -- `_candidate_order_key(a) < _candidate_order_key(b)`: the keys are negated but for the last, so the
  -- greater rank, gain, marker count and telemetry come first.
  unfoldable pub comes_before : CandidateScore F → CandidateScore F → Bool
  unfolding structural_priority_rank exposed_asset_id text_lt
  comes_before a b =
      if not (nat_beq (structural_priority_rank a) (structural_priority_rank b))
      then ltb (structural_priority_rank b) (structural_priority_rank a)
      else if not (feq a.expected_technique_gain b.expected_technique_gain)
      then flt b.expected_technique_gain a.expected_technique_gain
      else if not (nat_beq a.matched_dependency_marker_count b.matched_dependency_marker_count)
      then ltb b.matched_dependency_marker_count a.matched_dependency_marker_count
      else if not (feq a.telemetry_value b.telemetry_value)
      then flt b.telemetry_value a.telemetry_value
      else text_lt (exposed_asset_id a) (exposed_asset_id b)

  unfoldable pub min_loop : CandidateScore F → List (CandidateScore F) → CandidateScore F
  unfolding comes_before
  min_loop best [] = best
  min_loop best (c ∷ rest) = min_loop (if comes_before c best then c else best) rest

  -- `min(candidates, key=_candidate_order_key) if candidates else None`
  unfoldable pub select : List (CandidateScore F) → Option (CandidateScore F)
  unfolding min_loop
  select [] = none
  select (c ∷ rest) = some (min_loop c rest)
