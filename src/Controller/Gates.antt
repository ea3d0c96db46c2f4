-- ===== src/Controller/Gates.antt =====
-- The hard gates of services/controller/domain.py: `_eligibility` and `_runtime_is_available`.
use honeypot_fyp.Prelude.{
  String, Bool, true, false, not, ◌||◌, List, Option, none, some, filter, all, member, length, leb,
  ◌==◌, string_eq, if◌then◌else◌,
}
use honeypot_fyp.Common.Dict.{get}
use honeypot_fyp.Common.Floats.{FloatOps}
use honeypot_fyp.Common.Iterables.{dedupe_preserve}
use honeypot_fyp.Common.Json.{Json, obj, text, fields, Host}
use honeypot_fyp.Common.Text.{is_blank}
use honeypot_fyp.Common.Text.Order.{sorted}
use honeypot_fyp.Contracts.Assets.{AssetDefinition, is_internal}
use honeypot_fyp.Contracts.Actions.{ControllerTickRequest}
use honeypot_fyp.Controller.Settings.{Config, implementation_status}
use honeypot_fyp.Controller.Signals.{is_bootstrap_asset, matches_unlock_signals}

-- The reasons that the code gives as texts.
pub data Rejection : Type 0 where
  not_internal not_ready already_unlocked unlock_cap_reached : Rejection
  missing_dependencies : List String → Rejection
  runtime_unavailable signals_mismatch : Rejection

module _ {F : Type 0} where
  names_file : Host F → Option (Json F) → Bool
  names_file host (some (text compose_file)) =
      if is_blank compose_file then false else host.path_exists compose_file
  names_file host _ = false

  is_compose : Option (Json F) → Bool
  is_compose (some (text backend)) = backend == "compose"
  is_compose _ = false

  runtime_of : Host F → Option (Json F) → Bool
  unfolding names_file is_compose get
  runtime_of host (some (obj runtime)) =
      if is_compose (get "backend" (fields runtime))
      then names_file host (get "compose_file" (fields runtime))
      else true
  runtime_of host _ = true

  -- `_runtime_is_available`
  unfoldable pub runtime_is_available : Host F → AssetDefinition F → Bool
  unfolding runtime_of get
  runtime_is_available host asset = runtime_of host (get "runtime" asset.default_settings)

  -- `sorted(set(asset.dependencies) - set(unlocked_asset_ids))`
  unfoldable pub missing : AssetDefinition F → List String → List String
  unfolding sorted
  missing asset unlocked =
      sorted (dedupe_preserve (filter (λ id. not (member id unlocked)) asset.dependencies))

module _ {F : Type 0} ⦃ops : FloatOps F⦄ where
  unfoldable pub is_ready : Host F → AssetDefinition F → Bool
  unfolding implementation_status
  is_ready host asset =
      implementation_status host asset == "ready" || implementation_status host asset == "prototype"

  -- `_eligibility`: `none` where the asset is eligible, else why it is not
  unfoldable pub eligibility :
      Host F
      → Config F
      → AssetDefinition F
      → ControllerTickRequest F
      → List String
      → Option Rejection
  eligibility host config asset request unlocked =
      if not (is_internal asset.exposure_type)
      then some not_internal
      else if not (is_ready host asset)
      then some not_ready
      else if member asset.asset_id unlocked
      then some already_unlocked
      else if leb config.unlock_cap (length unlocked)
      then some unlock_cap_reached
      else if not (all (λ id. member id unlocked) asset.dependencies)
      then some (missing_dependencies (missing asset unlocked))
      else if not (runtime_is_available host asset)
      then some runtime_unavailable
      else if is_bootstrap_asset asset request
      then none
      else if not (matches_unlock_signals asset request)
      then some signals_mismatch
      else none
