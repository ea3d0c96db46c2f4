-- ===== src/AssetGateway/Upgrade.antt =====
-- `upsert_asset_gateway_routes` of services/orchestrator/runtime_routes.py followed by `load_routes` and
-- `select_route` of services/asset_gateway/app.py: which backend a connection reaches after the orchestrator
-- has written routes.
use mathlib.Core.Option.{some-injective}
use honeypot_fyp.Prelude.{
  ℕ, String, Bool, true, false, ◌&&◌, List, [], ◌∷◌, ◌++◌, some, any, filter, is_empty, ◌==◌,
  string_eq, ◌≡◌, refl, sym, ap, ◌∙◌, Bool-cases, inl, inr, append-nil,
}
use honeypot_fyp.Common.Dict.{Dict, get, put}
use honeypot_fyp.Common.Json.{Json, arr, items_of, as_list, Host}
use honeypot_fyp.Common.Numbers.{Numbers}
use honeypot_fyp.Common.Sorting.{last}
use honeypot_fyp.Common.Text.Order.{text_lt}
use honeypot_fyp.Common.JsonStore.{Payload}
use honeypot_fyp.Common.JsonStore.Writes.{stored_list-put}
use honeypot_fyp.Common.JsonStore.Replace.{◌>>=◌, objects, replaced}
use honeypot_fyp.Contracts.Assets.{AssetDefinition}
use honeypot_fyp.AssetGateway.Select.{
  AssetRoute, is_on_port, is_of_client, or_fallback, select_route,
}
use honeypot_fyp.AssetGateway.Load.{routes_from, load_routes}
use honeypot_fyp.AssetGateway.Upsert.{
  RouteContext, context_of, new_routes, mappings_in, upsert_asset_gateway_routes,
}
use honeypot_fyp.AssetGateway.Table.{made, routes_from-append, routes_from-new_routes}
use honeypot_fyp.AssetGateway.RouteKeys.{HasKeys, keys_of-new_routes}
use honeypot_fyp.AssetGateway.Preserved.{preserved-Keeps}
use honeypot_fyp.AssetGateway.Chosen.{made-IsNew, exact_route_new, exact_route_other}

module _ {F : Type 0} ⦃numbers : Numbers F⦄ (host : Host F) where
  nothing_read :
      (entries : List (Dict (Json F))) (rs : List AssetRoute)
      → routes_from host (objects entries) ≡ some rs
      → is_empty entries ≡ true
      → ◌≡◌ {A = List AssetRoute} [] rs
  unfolding routes_from
  nothing_read [] rs h k = some-injective [] rs h
  nothing_read (entry ∷ rest) rs h k = cc

  module _ (updated_at binding_id attacker_key : String) (asset : AssetDefinition F)
      (settings : Dict (Json F)) (payload : Payload F) (rs : List AssetRoute) where
    abbrev context : RouteContext
    context = context_of updated_at binding_id attacker_key asset settings

    -- the routes of the call, as the gateway reads them
    abbrev pub asked : List AssetRoute
    asked = made host context (mappings_in settings)

    record Upserted : Type 0 where
      after : Payload F
      kept : List AssetRoute
      after_is :
          upsert_asset_gateway_routes updated_at binding_id attacker_key asset settings payload
          ≡ some after
      routes_are : load_routes host after ≡ some (kept ++ asked)
      fewer : (p : AssetRoute → Bool) → any p rs ≡ false → any p kept ≡ false
      others :
          (q : AssetRoute → Bool)
          → any (λ r. r.binding_id == binding_id && q r) rs ≡ false
          → filter q kept ≡ filter q rs

    upsert-Upserted :
        HasKeys (as_list (get "routes" payload)) → load_routes host payload ≡ some rs → Upserted
    unfolding upsert_asset_gateway_routes replaced load_routes
    upsert-Upserted has h =
        let entries = new_routes context (mappings_in settings) in
        let read = routes_from-new_routes host context (mappings_in settings) in
        elim (Bool-cases (is_empty entries)) [
          | inl nothing ↦ record {
            after = payload;
            kept = rs;
            after_is = rw (nothing, upsert_asset_gateway_routes) refl;
            routes_are =
                h
                ∙ ap some (
                    sym (append-nil rs)
                    ∙ ap (λ z. rs ++ z) (nothing_read entries asked read nothing));
            fewer = λ p e. e;
            others = λ q e. refl;
          }
          | inr entered ↦
              let (keys, keys_are, of_binding) =
                keys_of-new_routes context (mappings_in settings) in
              let keeps =
                preserved-Keeps host binding_id keys of_binding (as_list (get "routes" payload)) rs
                  has h in
              record {
                after = put "routes" (arr (items_of (keeps.kept ++ objects entries))) payload;
                kept = keeps.routes;
                after_is = rw (entered, keys_are, keeps.kept_is, ◌>>=◌) refl;
                routes_are =
                    ap (routes_from host)
                      (stored_list-put "routes" (keeps.kept ++ objects entries) payload)
                    ∙ routes_from-append host keeps.kept (objects entries) keeps.routes asked
                        keeps.routes_is read;
                fewer = keeps.fewer;
                others = keeps.others;
              }
        ]

    -- Where the keys of the table can be hashed, its routes load, and none is later than the call,
    -- upsert_asset_gateway_routes gives a table that loads, and from it select_route gives the
    -- attacker on a port the last route that the call asked for on that port, with the fallback or
    -- without: a backend is replaced behind its port.
    pub upsert-select_route :
        (port : ℕ) (r : AssetRoute)
        → HasKeys (as_list (get "routes" payload))
        → load_routes host payload ≡ some rs
        → any (λ x. text_lt updated_at x.updated_at) rs ≡ false
        → last (filter (is_on_port port) asked) ≡ some r
        → (after : Payload F) × (routes : List AssetRoute) × (upsert_asset_gateway_routes updated_at
              binding_id attacker_key asset settings payload
            ≡ some after)
          × (load_routes host after ≡ some routes)
          × ((fallback : Bool) → select_route routes attacker_key port fallback ≡ some r)
    unfolding select_route context_of
    upsert-select_route port r has h older newest =
        let u = upsert-Upserted has h in
        let exact =
          exact_route_new host context port u.kept asked r
            (made-IsNew host context (mappings_in settings))
            (u.fewer (λ x. text_lt updated_at x.updated_at) older) newest in
        (
          u.after,
          u.kept ++ asked,
          u.after_is,
          u.routes_are,
          λ fallback. rw (exact, or_fallback) refl,
        )

    -- Where the keys of the table can be hashed, its routes load, and no route of another client
    -- has the binding of the call, upsert_asset_gateway_routes gives a table that loads, and from
    -- it select_route without the fallback gives that client what it gave before on every port.
    pub upsert-select_route_other :
        (client : String) (port : ℕ)
        → (attacker_key == client) ≡ false
        → HasKeys (as_list (get "routes" payload))
        → load_routes host payload ≡ some rs
        → any (λ x. x.binding_id == binding_id && is_of_client client x) rs ≡ false
        → (after : Payload F) × (routes : List AssetRoute) × (upsert_asset_gateway_routes updated_at
              binding_id attacker_key asset settings payload
            ≡ some after)
          × (load_routes host after ≡ some routes)
          × (select_route routes client port false ≡ select_route rs client port false)
    unfolding select_route context_of
    upsert-select_route_other client port ne has h own =
        let u = upsert-Upserted has h in
        let same =
          exact_route_other host context client port rs u.kept asked ne
            (made-IsNew host context (mappings_in settings)) u.others own in
        (u.after, u.kept ++ asked, u.after_is, u.routes_are, rw (same) refl)
