-- ===== src/Contracts/Bindings.antt =====
-- Bindings and gateway state of libs/contracts/models.py.
use honeypot_fyp.Prelude.{ℕ, String, List, Option, Bool, true, false}
use honeypot_fyp.Common.Dict.{Dict}

pub data BindingStatus : Type 0 where
  active idle recycled recovered : BindingStatus

abbrev pub is_recycled : BindingStatus → Bool
is_recycled recycled = true
is_recycled _ = false

pub data RecycleMode : Type 0 where
  idle_mode hard_mode : RecycleMode

pub record BindingRecord : Type 0 where
  pub binding_id : String
  pub attacker_key : String
  pub backend_instance_id : String
  pub status : BindingStatus
  pub first_seen_ts : ℕ
  pub last_seen_ts : ℕ
  pub ttl_expires_at : ℕ
  pub volume_ref : Option String
  pub unlocked_assets : List String
  pub revealed_configurations : Dict (List String)

pub record GatewayBindingState : Type 0 where
  pub binding_id : String
  pub attacker_key : String
  pub backend_instance_id : String
  pub status : BindingStatus
  pub exposed_assets : List String
  pub failed_assets : List String
  pub route_updates : List String
  pub updated_at : ℕ

pub record GatewaySyncRequest : Type 0 where
  pub binding : BindingRecord
  pub route_updates : List String
  pub exposed_assets_override : Option (List String)
  pub failed_assets_override : Option (List String)
