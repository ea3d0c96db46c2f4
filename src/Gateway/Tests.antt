-- ===== src/Gateway/Tests.antt =====
-- Syncs at concrete states.
use honeypot_fyp.Prelude.{[], ◌∷◌, ◌++◌, none, some, ◌≡◌, string_eq}
use honeypot_fyp.Contracts.Bindings.{BindingRecord, GatewaySyncRequest, active}
use honeypot_fyp.Gateway.Service.{get, updates_of, sync}
use honeypot_fyp.Gateway.History.{get-sync, sync_all, requested, sync_all-history}

abbrev bound : BindingRecord
bound = record {
  binding_id = "b-1";
  attacker_key = "198.51.100.10";
  backend_instance_id = "ns-b-1";
  status = active;
  first_seen_ts = 100;
  last_seen_ts = 100;
  ttl_expires_at = 700;
  volume_ref = some "vol-b-1";
  unlocked_assets = "internal-portal" ∷ [];
  revealed_configurations = [];
}

abbrev request : GatewaySyncRequest
request = record {
  binding = bound;
  route_updates = "binding b-1 exposes internal-portal" ∷ [];
  exposed_assets_override = none;
  failed_assets_override = none;
}

abbrev again : GatewaySyncRequest
again = record request { route_updates = "binding b-1 routes internal-portal" ∷ [] }

get-sync_example :
    (get "b-1" (sync 100 request []).1 ≡ some (sync 100 request []).0)
    × ((sync 100 request []).0.route_updates ≡ updates_of (get "b-1" []) ++ request.route_updates)
    × ((sync 100 request []).0.exposed_assets ≡ "internal-portal" ∷ [])
    × ((sync 100 request []).0.failed_assets ≡ [])
get-sync_example = get-sync 100 request "b-1" []

sync_all-history_example :
    updates_of (get "b-1" (sync_all ((100, request) ∷ (200, again) ∷ []) []))
    ≡ updates_of (get "b-1" []) ++ requested "b-1" ((100, request) ∷ (200, again) ∷ [])
sync_all-history_example = sync_all-history ((100, request) ∷ (200, again) ∷ []) "b-1" []
