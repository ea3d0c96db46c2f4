-- ===== src/Orchestrator/Follows.antt =====
-- What the loop of `apply` in services/orchestrator/domain.py keeps: it changes the binding records by
-- calls of the binding service only, and its own copy of the binding is the one that is stored.
use honeypot_fyp.Prelude.{
  ℕ, String, ◌||◌, List, [], ◌∷◌, ◌++◌, Option, none, some, ◌≡◌, refl, sym, ap, ◌∙◌, arith,
  string_eq, member, member-append, beq_refl,
}
use honeypot_fyp.Common.Dict.{Dict}
use honeypot_fyp.Common.Json.{Json}
use honeypot_fyp.Contracts.Assets.{AssetDefinition}
use honeypot_fyp.Contracts.Bindings.{BindingRecord}
use honeypot_fyp.Binding.Repository.{get_by_binding, upsert}
use honeypot_fyp.Binding.Service.{modify, modify_found}
use honeypot_fyp.Binding.Lookup.{get_by_binding-upsert}
use honeypot_fyp.Binding.Current.{found_by_binding}
use honeypot_fyp.Binding.Invariant as Calls
use honeypot_fyp.Binding.Invariant.{Command, settle, IsFresh}
use honeypot_fyp.Binding.History.{Reach, next}
use honeypot_fyp.Orchestrator.Runtime.{TemplateRuntime, AssetRuntimeRecord}
use honeypot_fyp.Orchestrator.Steps.{
  Orchestrator, World, Progress, start_with, start_all, start_asset_runtime, catalog_asset,
  configure_with, apply_asset_configuration, noted,
}

module _ {F R : Type 0} where
  -- After the actions that ask for the assets `asked`, from the world `w` and its binding `r`.
  pub record Follows (ttl : ℕ) (id : String) (w : World R) (r : BindingRecord) (asked : List String)
      (p : Progress F R) : Type 0 where
    pub stored : get_by_binding id p.world.records ≡ some p.binding
    pub reached : Reach ttl w.records p.world.records
    pub gateway_same : p.world.gateway ≡ w.gateway
    pub opened :
        (a : String)
        → member a p.binding.unlocked_assets ≡ (member a r.unlocked_assets || member a asked)

  -- A change of containers, events, updates or clock readings keeps it.
  pub same-Follows :
      {ttl : ℕ} {id : String} {w : World R} {r : BindingRecord} {asked : List String}
      (p q : Progress F R)
      → q.world.records ≡ p.world.records
      → q.world.gateway ≡ p.world.gateway
      → q.binding ≡ p.binding
      → Follows ttl id w r asked p
      → Follows ttl id w r asked q
  same-Follows {ttl} {id} {w} p q records gateway binding h = record {
    stored = rw (records, binding) h.stored;
    reached = rw records h.reached;
    gateway_same = gateway ∙ h.gateway_same;
    opened = λ a. rw binding (h.opened a);
  }

  module _ {ttl : ℕ} {id : String} {w : World R} {r : BindingRecord} {asked : List String} where
    start_with-Follows :
        (runtime : Option (TemplateRuntime F R)) (asset : Option (AssetDefinition F))
        (override : Option (Dict (Json F))) (p : Progress F R)
        → Follows ttl id w r asked p
        → Follows ttl id w r asked (start_with runtime asset override p)
    unfolding start_with
    start_with-Follows none asset override p h = h
    start_with-Follows (some runtime) none override p h = h
    start_with-Follows (some runtime) (some asset) override p h = same-Follows p _ refl refl refl h

    pub start_all-Follows :
        (o : Orchestrator F R) (target : Option String) (override : Option (Dict (Json F)))
        (new : List String) (p : Progress F R)
        → Follows ttl id w r asked p
        → Follows ttl id w r asked (start_all o target override new p)
    unfolding start_all start_asset_runtime
    start_all-Follows o target override [] p h = h
    start_all-Follows o target override (a ∷ rest) p h =
        start_all-Follows o target override rest _
          (start_with-Follows o.runtime (catalog_asset o.catalog a) _ p h)

    noted-Follows :
        (found : Option (AssetRuntimeRecord F)) (containers : R) (p : Progress F R)
        → Follows ttl id w r asked p
        → Follows ttl id w r asked (noted found containers p)
    noted-Follows none containers p h = same-Follows p _ refl refl refl h
    noted-Follows (some record') containers p h = same-Follows p _ refl refl refl h

    configure_with-Follows :
        (runtime : Option (TemplateRuntime F R)) (a c : String) (settings : Dict (Json F))
        (p : Progress F R)
        → Follows ttl id w r asked p
        → Follows ttl id w r asked (configure_with runtime a c settings p)
    unfolding configure_with
    configure_with-Follows none a c settings p h = h
    configure_with-Follows (some runtime) a c settings p h = noted-Follows _ _ p h

    pub apply_asset_configuration-Follows :
        (o : Orchestrator F R) (a c : String) (settings : Dict (Json F)) (p : Progress F R)
        → Follows ttl id w r asked p
        → Follows ttl id w r asked (apply_asset_configuration o a c settings p)
    unfolding apply_asset_configuration
    apply_asset_configuration-Follows o a c settings p h =
        configure_with-Follows o.runtime a c settings p h

    -- A call of the binding service that changes the record by `f` and opens the assets `extra`.
    pub called-Follows :
        (c : Command) (f : BindingRecord → BindingRecord) (extra : List String) (p q : Progress F R)
        → Calls.apply ttl c p.world.records ≡ settle p.world.records (modify f id p.world.records)
        → IsFresh c p.world.records
        → (f p.binding).binding_id ≡ p.binding.binding_id
        → ((a : String)
            → member a (f p.binding).unlocked_assets
              ≡ (member a p.binding.unlocked_assets || member a extra))
        → q.world.records ≡ (upsert (f p.binding) p.world.records).1
        → q.world.gateway ≡ p.world.gateway
        → q.binding ≡ f p.binding
        → Follows ttl id w r asked p
        → Follows ttl id w r (asked ++ extra) q
    called-Follows c f extra p q call fresh same opens records gateway binding h =
        let b = p.binding in
        let xs = p.world.records in
        let is_id : (f b).binding_id ≡ id = same ∙ (found_by_binding id xs b h.stored).1 in
        let written : Calls.apply ttl c xs ≡ (upsert (f b) xs).1 =
          call ∙ ap (settle xs) (modify_found f id xs b h.stored) in
        record {
          stored =
              rw (records, binding)
                (get_by_binding-upsert (f b) id xs ∙ rw (is_id, beq_refl id) refl);
          reached = rw (records, sym written) (next h.reached c fresh);
          gateway_same = gateway ∙ h.gateway_same;
          opened =
              λ a. rw (binding, opens a, h.opened a) (ground (arith, member-append a asked extra));
        }
