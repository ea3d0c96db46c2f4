-- ===== src/Controller/Admission.antt =====
-- What services/controller/domain.py may offer at a tick: the asset and the action of an option, and what lets it in.
use mathlib.Core.List.{Memᴰ}
use honeypot_fyp.Prelude.{
  String, Bool, true, false, not, ◌&&◌, ◌||◌, List, [], map, Option, none, some, member, is_empty,
  ◌==◌, string_eq, ◌≡◌, arith, All,
}
use honeypot_fyp.Common.Dict.{Dict, get, get_or, of_pairs}
use honeypot_fyp.Common.Floats.{FloatOps}
use honeypot_fyp.Common.Json.{Json, string_or_none, Host}
use honeypot_fyp.Contracts.Assets.{AssetDefinition}
use honeypot_fyp.Contracts.Actions.{ActionType, unlock, configure, ControllerTickRequest}
use honeypot_fyp.Controller.Settings.{Config}
use honeypot_fyp.Controller.Signals.{observed_signal_sets}
use honeypot_fyp.Controller.Gates.{runtime_is_available}
use honeypot_fyp.Controller.Upgrades.{RevealOption}
use honeypot_fyp.Controller.Variants.{
  configuration_variants, required_markers, matched_variant_markers, visible_on_active_path,
}
use honeypot_fyp.Controller.Options.{by_id, append_option}
use honeypot_fyp.Controller.Eligible.{IsEligible}

-- The target of a configuration: none, or an asset of the catalog that runs on this host and that is
-- the source itself or is not planned.
pub data IsTarget {F : Type 0} (host : Host F) (assets : List (AssetDefinition F))
    (source : AssetDefinition F) (planned : List String) : Option String → Type 0 where
  no_target : IsTarget host assets source planned none
  target :
      (id : String) (asset : AssetDefinition F)
      → get id (of_pairs (map by_id assets)) ≡ some asset
      → runtime_is_available host asset ≡ true
      → (id == source.asset_id || not (member id planned)) ≡ true
      → IsTarget host assets source planned (some id)

-- A variant of an open asset that names a configuration that is not revealed, that is on a path the
-- attacker is active on, and that has one of the markers it requires.
pub record IsFollowOn {F : Type 0} (request : ControllerTickRequest F) (source : AssetDefinition F)
    (variant : Dict (Json F)) (configuration_id : String) : Type 0 where
  pub named : string_or_none (get "configuration_id" variant) ≡ some configuration_id
  pub source_open : member source.asset_id request.unlocked_asset_ids ≡ true
  pub unrevealed :
      member configuration_id (get_or source.asset_id request.revealed_configurations []) ≡ false
  pub visible :
      visible_on_active_path source.asset_id variant request.profile.recent_asset_ids ≡ true
  pub marked :
      (is_empty (required_markers variant)
        || not (is_empty (matched_variant_markers variant (observed_signal_sets request))))
      ≡ true

-- The reveals that may be considered with the ids `planned` as unlocked.
pub data Admitted {F : Type 0} ⦃ops : FloatOps F⦄ (host : Host F) (config : Config F)
    (assets : List (AssetDefinition F)) (request : ControllerTickRequest F) (planned : List String)
    : AssetDefinition F → ActionType → Option String → Option String → Dict (Json F) → Type 0 where
  unlocks :
      (asset : AssetDefinition F)
      → Memᴰ asset assets
      → IsEligible host config asset request planned
      → Admitted host config assets request planned asset unlock none none []
  configures :
      (source : AssetDefinition F) (variant : Dict (Json F)) (id : String) (t : Option String)
      → Memᴰ source assets
      → Memᴰ variant (configuration_variants source)
      → IsFollowOn request source variant id
      → IsTarget host assets source planned t
      → Admitted host config assets request planned source configure (some id) t variant

module _ {F : Type 0} ⦃ops : FloatOps F⦄ where
  abbrev pub IsAdmitted :
      Host F
      → Config F
      → List (AssetDefinition F)
      → ControllerTickRequest F
      → List String
      → RevealOption F
      → Type 0
  IsAdmitted host config assets request planned o =
      Admitted host config assets request planned o.asset o.action_type o.configuration_id
        o.target_asset_id o.settings

-- The property where there is a value.
abbrev pub Holds {ℓ κ} : {A : Type ℓ} → (A → Type κ) → Option A → Type κ
Holds P none = Unit
Holds P (some a) = P a

pub Holds-some :
    {A : Type 0} (T : Type 0) (o : Option A) (a : A) → o ≡ some a → Holds (λ x. T) o → T
Holds-some T none a h t = cc
Holds-some T (some b) a h t = t

pub not_and : (a b : Bool) → (not a && b) ≡ false → (a || not b) ≡ true
not_and a b h = ground arith

pub Holds-append :
    {A : Type 0} (P : A → Type 0) (o : Option A) (rest : List A)
    → Holds P o
    → All P rest
    → All P (append_option o rest)
Holds-append P none rest h k = k
Holds-append P (some a) rest h k = (h, k)
