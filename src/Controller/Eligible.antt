-- ===== src/Controller/Eligible.antt =====
-- What the hard gates of services/controller/domain.py let through.
use Prim.Native.Nat.{◌<◌}
use honeypot_fyp.Prelude.{
  String, Bool, true, false, not, ◌&&◌, ◌||◌, ◌==◌, sym, ap, ◌∙◌, is_empty, List, none, all, member,
  length, string_eq, ◌≡◌, ◌↔◌, arith,
}
use honeypot_fyp.Common.Floats.{FloatOps}
use honeypot_fyp.Contracts.Assets.{AssetDefinition, is_internal}
use honeypot_fyp.Contracts.Actions.{ControllerTickRequest}
use honeypot_fyp.Common.Json.{Host}
use honeypot_fyp.Controller.Settings.{Config}
use honeypot_fyp.Controller.Signals.{is_bootstrap_asset, matches_unlock_signals}
use honeypot_fyp.Controller.Gates.{is_ready, runtime_is_available, eligibility}

-- The portal, where nothing is open and the profile has shown something.
abbrev pub opens_portal : {F : Type 0} → AssetDefinition F → ControllerTickRequest F → Bool
opens_portal asset request =
    asset.asset_id == "internal-portal"
    && is_empty request.unlocked_asset_ids
    && not (
        is_empty request.profile.recent_evidence_ids
        && is_empty request.profile.recent_techniques
        && is_empty request.profile.recent_tactics)

is_bootstrap_asset-opens_portal :
    {F : Type 0} (asset : AssetDefinition F) (request : ControllerTickRequest F)
    → is_bootstrap_asset asset request ≡ opens_portal asset request
unfolding is_bootstrap_asset
is_bootstrap_asset-opens_portal asset request = ground arith

-- An internal asset that is ready, still closed, within the cap, with its dependencies open and its
-- runtime on this host, and that the profile calls for.
pub record IsEligible {F : Type 0} ⦃ops : FloatOps F⦄ (host : Host F) (config : Config F)
    (asset : AssetDefinition F) (request : ControllerTickRequest F) (unlocked : List String)
    : Type 0 where
  pub internal : is_internal asset.exposure_type ≡ true
  pub ready : is_ready host asset ≡ true
  pub closed : member asset.asset_id unlocked ≡ false
  pub room : length unlocked < config.unlock_cap
  pub dependencies_open : all (λ id. member id unlocked) asset.dependencies ≡ true
  pub runs : runtime_is_available host asset ≡ true
  pub called_for : (opens_portal asset request || matches_unlock_signals asset request) ≡ true

module _ {F : Type 0} ⦃ops : FloatOps F⦄ where
  -- An asset passes the gates exactly if it is internal, ready, not open, within the cap, has its
  -- dependencies open and its runtime available, and is the internal portal, with nothing open and
  -- something in the profile, or matches the unlock signals.
  pub eligibility-none :
      (host : Host F) (config : Config F) (asset : AssetDefinition F)
      (request : ControllerTickRequest F) (unlocked : List String)
      → (eligibility host config asset request unlocked ≡ none)
        ↔ IsEligible host config asset request unlocked
  unfolding eligibility
  eligibility-none host config asset request unlocked = (
    λ h. record {
      internal = ground (arith, h);
      ready = ground (arith, h);
      closed = ground (arith, h);
      room = ground (arith, h);
      dependencies_open = ground (arith, h);
      runs = ground (arith, h);
      called_for =
          ap (λ b. b || matches_unlock_signals asset request)
            (sym (is_bootstrap_asset-opens_portal asset request))
          ∙ ground (arith, h);
    },
    λ e.
        let called : (is_bootstrap_asset asset request || matches_unlock_signals asset request)
            ≡ true =
          ap (λ b. b || matches_unlock_signals asset request)
            (is_bootstrap_asset-opens_portal asset request)
          ∙ e.called_for in
        ground (arith, e.internal, e.ready, e.closed, e.room, e.dependencies_open, e.runs, called),
  )
