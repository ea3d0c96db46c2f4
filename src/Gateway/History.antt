-- ===== src/Gateway/History.antt =====
-- The route history that `sync` of services/gateway/domain.py keeps for each binding.
use honeypot_fyp.Prelude.{
  ℕ, String, List, [], ◌∷◌, ◌++◌, append-nil, append_assoc, some, ◌≡◌, refl, ap, sym, ◌∙◌, eq_iff,
  ◌==◌, string_eq, if◌then◌else◌, Bool-cases, inl, inr,
}
use honeypot_fyp.Common.JsonStore.Keyed.{by_key-upsert_keyed}
use honeypot_fyp.Contracts.Bindings.{GatewayBindingState, GatewaySyncRequest}
use honeypot_fyp.Gateway.Service.{
  Routes, binding_of, get, upsert, or_else, updates_of, synced, sync,
}

get-upsert :
    (state : GatewayBindingState) (j : String) (routes : Routes)
    → get j (upsert state routes).1 ≡ (if state.binding_id == j then some state else get j routes)
unfolding get upsert
get-upsert state j routes = by_key-upsert_keyed binding_of state j routes

-- After a sync the look-up of its binding finds the state it returned and any other binding the
-- state it had; the route updates are those stored and then the new ones, the exposed assets are
-- the override or those unlocked, and the failed assets are the override or none.
pub get-sync :
    (now : ℕ) (request : GatewaySyncRequest) (j : String) (routes : Routes)
    → let id = request.binding.binding_id in
      let state = (sync now request routes).0 in
      (get j (sync now request routes).1 ≡ (if id == j then some state else get j routes))
      × (state.route_updates ≡ updates_of (get id routes) ++ request.route_updates)
      × (state.exposed_assets
          ≡ or_else request.exposed_assets_override request.binding.unlocked_assets)
      × (state.failed_assets ≡ or_else request.failed_assets_override [])
unfolding sync upsert
get-sync now request j routes = (
  get-upsert (synced now request (get request.binding.binding_id routes)) j routes,
  refl,
  refl,
  refl,
)

updates-sync :
    (now : ℕ) (request : GatewaySyncRequest) (j : String) (routes : Routes)
    → updates_of (get j (sync now request routes).1)
      ≡ updates_of (get j routes)
        ++ (if request.binding.binding_id == j then request.route_updates else [])
updates-sync now request j routes =
    let (found, updates, _, _) = get-sync now request j routes in
    elim (Bool-cases (request.binding.binding_id == j)) [
      | inl here ↦
          rw (found, here)
            (updates
              ∙ ap (λ k. updates_of (get k routes) ++ request.route_updates) ((eq_iff _ j).0 here))
      | inr past ↦ rw (found, past) (sym (append-nil (updates_of (get j routes))))
    ]

-- A sequence of syncs, each at its time.
unfoldable pub sync_all : List (ℕ × GatewaySyncRequest) → Routes → Routes
sync_all [] routes = routes
sync_all ((now, request) ∷ rest) routes = sync_all rest (sync now request routes).1

-- The updates that a sequence asks for at one binding, in its order.
unfoldable pub requested : String → List (ℕ × GatewaySyncRequest) → List String
requested j [] = []
requested j ((now, request) ∷ rest) =
    (if request.binding.binding_id == j then request.route_updates else []) ++ requested j rest

-- Over any sequence of syncs the stored route updates of a binding are what they were, followed by
-- every update asked for at that binding, in order.
pub sync_all-history :
    (syncs : List (ℕ × GatewaySyncRequest)) (j : String) (routes : Routes)
    → updates_of (get j (sync_all syncs routes)) ≡ updates_of (get j routes) ++ requested j syncs
unfolding sync_all requested
sync_all-history [] j routes = sym (append-nil (updates_of (get j routes)))
sync_all-history ((now, request) ∷ rest) j routes =
    sync_all-history rest j (sync now request routes).1
    ∙ ap (λ updates. updates ++ requested j rest) (updates-sync now request j routes)
    ∙ append_assoc (updates_of (get j routes)) _ (requested j rest)
