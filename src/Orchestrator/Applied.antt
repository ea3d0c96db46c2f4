-- ===== src/Orchestrator/Applied.antt =====
-- `apply` of services/orchestrator/domain.py: once the binding is found, no action fails.
use honeypot_fyp.Prelude.{
  String, Bool, true, false, not, List, [], ◌∷◌, ◌++◌, Option, none, some, ◌≡◌, refl, sym, arith,
  string_eq, member, member-add_all, append_assoc, append-nil, Bool-cases, inl, inr,
}
use honeypot_fyp.Common.Dict.{Dict}
use honeypot_fyp.Common.Json.{Json}
use honeypot_fyp.Contracts.Actions.{ControllerAction}
use honeypot_fyp.Contracts.Bindings.{BindingRecord, idle_mode}
use honeypot_fyp.Binding.Repository.{upsert}
use honeypot_fyp.Binding.Service as Bindings
use honeypot_fyp.Binding.Service.{
  Outcome, ok, binding_not_found, ◌>>=◌, modify_found, unlocked, configured, put_away,
}
use honeypot_fyp.Binding.Invariant as Calls
use honeypot_fyp.Binding.Invariant.{Command}
use honeypot_fyp.Orchestrator.Runtime.{TemplateRuntime}
use honeypot_fyp.Orchestrator.Routes as Texts
use honeypot_fyp.Orchestrator.Routes.{new_asset_ids, unlock_route_updates}
use honeypot_fyp.Orchestrator.Steps.{
  Orchestrator, World, Progress, Task, unlock_one, configure_one, update_route, recycle_binding,
  nothing, task_of, target_runtime, now, stored, apply_asset_configuration, apply_unlocks,
}
use honeypot_fyp.Orchestrator.Service.{
  when, is_none, override_task, configure_task_run, stop_with, recycle_run, run_task, run_actions,
}
use honeypot_fyp.Orchestrator.Follows.{
  Follows, same-Follows, start_all-Follows, apply_asset_configuration-Follows, called-Follows,
}

abbrev pub target_list : Option String → List String
target_list none = []
target_list (some t) = t ∷ []

module _ {F : Type 0} where
  -- The assets that a task opens.
  abbrev pub opened_by : Task F → List String
  opened_by (unlock_one a) = a ∷ []
  opened_by (configure_one a c target settings) = target_list target
  opened_by _ = []

  unfoldable pub opened_by_actions : List (ControllerAction F) → List String
  unfolding task_of
  opened_by_actions [] = []
  opened_by_actions (action ∷ rest) = opened_by (task_of action) ++ opened_by_actions rest

module _ {F R : Type 0} (o : Orchestrator F R) (id : String) (w : World R) (r : BindingRecord) where
  abbrev Runs : List String → Outcome (Progress F R) → Type 0
  Runs asked outcome = (q : Progress F R) × (outcome ≡ ok q) × Follows o.ttl id w r asked q

  after_unlocks : Progress F R → List String → Progress F R
  after_unlocks p asset_ids =
      let updated = unlocked (now o p) asset_ids p.binding in
      record p {
        world = stored (upsert updated p.world.records).1 p.world;
        binding = updated;
        route_updates =
            p.route_updates
            ++ unlock_route_updates id p.binding.unlocked_assets updated.unlocked_assets asset_ids;
      }

  apply_unlocks-ok :
      (p : Progress F R) (asset_ids asked : List String)
      → Follows o.ttl id w r asked p
      → apply_unlocks o id asset_ids p
        ≡ ok (
          after_unlocks p asset_ids,
          unlock_route_updates id p.binding.unlocked_assets
              (unlocked (now o p) asset_ids p.binding).unlocked_assets
              asset_ids,
        )
  unfolding apply_unlocks after_unlocks Bindings.unlock_assets upsert
  apply_unlocks-ok p asset_ids asked h =
      rw (modify_found (unlocked (now o p) asset_ids) id p.world.records p.binding h.stored) refl

  after_unlocks-Follows :
      (p : Progress F R) (asset_ids asked : List String)
      → Follows o.ttl id w r asked p
      → Follows o.ttl id w r (asked ++ asset_ids) (after_unlocks p asset_ids)
  unfolding after_unlocks unlocked Calls.apply Bindings.unlock_assets
  after_unlocks-Follows p asset_ids asked h =
      called-Follows (Command.unlock_assets (now o p) asset_ids id) (unlocked (now o p) asset_ids)
        asset_ids p (after_unlocks p asset_ids) refl tt refl
        (λ a. member-add_all a p.binding.unlocked_assets asset_ids) refl refl refl h

  -- the ids that the updates of an unlock name
  opened_now : Progress F R → List String → List String
  opened_now p asset_ids = new_asset_ids (
      unlock_route_updates id p.binding.unlocked_assets
        (unlocked (now o p) asset_ids p.binding).unlocked_assets asset_ids)

  unlock-Runs :
      (p : Progress F R) (a : String) (asked : List String)
      → Follows o.ttl id w r asked p
      → Runs (asked ++ a ∷ []) (run_task o id (unlock_one a) p)
  unfolding run_task opened_now
  unlock-Runs p a asked h = rw (apply_unlocks-ok p (a ∷ []) asked h) (
    _,
    refl,
    start_all-Follows o none none (opened_now p (a ∷ [])) _
        (after_unlocks-Follows p (a ∷ []) asked h),
  )

  override-Runs :
      (p : Progress F R) (target : Option String) (override : Option (Dict (Json F)))
      (asked : List String)
      → Follows o.ttl id w r asked p
      → Runs (asked ++ target_list target) (override_task o id target override p)
  unfolding override_task opened_now
  override-Runs p none override asked h = (p, refl, rw append-nil h)
  override-Runs p (some t) override asked h =
      let opened = opened_now p (t ∷ []) in
      let follows = after_unlocks-Follows p (t ∷ []) asked h in
      rw (apply_unlocks-ok p (t ∷ []) asked h) (elim (Bool-cases (member t opened)) [
        | inl fresh ↦ rw fresh (_, refl, start_all-Follows o (some t) override opened _ follows)
        | inr old ↦ rw old (
          _,
          refl,
          start_all-Follows o (some t) override (opened ++ t ∷ []) _
              (same-Follows (after_unlocks p (t ∷ [])) _ refl refl refl follows),
        )
      ])

  when-Follows :
      (b : Bool) (a c : String) (settings : Dict (Json F)) (p : Progress F R) (asked : List String)
      → Follows o.ttl id w r asked p
      → Follows o.ttl id w r asked (when b (apply_asset_configuration o a c settings) p)
  when-Follows true a c settings p asked h = apply_asset_configuration-Follows o a c settings p h
  when-Follows false a c settings p asked h = h

  after_configure : Progress F R → String → String → Progress F R
  after_configure p a c =
      let updated = configured (now o p) ((a, c ∷ []) ∷ []) p.binding in
      record p {
        world = stored (upsert updated p.world.records).1 p.world;
        binding = updated;
        route_updates = p.route_updates ++ Texts.configures id a c ∷ [];
      }

  after_configure-Follows :
      (p : Progress F R) (a c : String) (asked : List String)
      → Follows o.ttl id w r asked p
      → Follows o.ttl id w r asked (after_configure p a c)
  unfolding after_configure configured Calls.apply Bindings.reveal_configurations
  after_configure-Follows p a c asked h = rw (sym (append-nil asked)) (
      called-Follows (Command.reveal_configurations (now o p) ((a, c ∷ []) ∷ []) id)
        (configured (now o p) ((a, c ∷ []) ∷ [])) [] p (after_configure p a c) refl tt refl
        (λ x. ground arith) refl refl refl h)

  finish_configure :
      (b : Bool) (a c : String) (settings : Dict (Json F)) (asked : List String)
      (outcome : Outcome (Progress F R))
      → Runs asked outcome
      → Runs asked (outcome >>= λ q. ok (when b (apply_asset_configuration o a c settings) q))
  finish_configure b a c settings asked outcome (q, e, h) =
      rw e (_, refl, when-Follows b a c settings q asked h)

  configure-Runs :
      (p : Progress F R) (a c : String) (target : Option String) (settings : Dict (Json F))
      (asked : List String)
      → Follows o.ttl id w r asked p
      → Runs
          (asked ++ opened_by (configure_one a c target settings))
          (run_task o id (configure_one a c target settings) p)
  unfolding run_task configure_task_run after_configure Bindings.reveal_configurations upsert
  configure-Runs p a c target settings asked h =
      let override = target_runtime settings in
      let p1 =
        when (is_none override) (apply_asset_configuration o a c settings)
          (after_configure p a c) in
      rw
        (modify_found (configured (now o p) ((a, c ∷ []) ∷ [])) id p.world.records p.binding
          h.stored)
        (finish_configure (not (is_none override)) a c settings (asked ++ target_list target)
          (override_task o id target override p1)
          (override-Runs p1 target override asked (
            when-Follows (is_none override) a c settings (after_configure p a c) asked
              (after_configure-Follows p a c asked h))))

  stop_with-Follows :
      (runtime : Option (TemplateRuntime F R)) (p : Progress F R) (asked : List String)
      → Follows o.ttl id w r asked p
      → Follows o.ttl id w r asked (stop_with runtime o.times id p)
  unfolding stop_with
  stop_with-Follows none p asked h = h
  stop_with-Follows (some runtime) p asked h = same-Follows p _ refl refl refl h

  recycle-Runs :
      (p : Progress F R) (asked : List String)
      → Follows o.ttl id w r asked p
      → Runs (asked ++ []) (run_task o id recycle_binding p)
  unfolding run_task recycle_run put_away Calls.apply Bindings.recycle upsert
  recycle-Runs p asked h =
      let p' = stop_with o.runtime o.times id p in
      let h' = stop_with-Follows o.runtime p asked h in
      let f = put_away o.ttl (now o p') idle_mode in
      rw (modify_found f id p'.world.records p'.binding h'.stored) (
        _,
        refl,
        called-Follows (Command.recycle (now o p') idle_mode id) f [] p' _ refl tt refl
            (λ x. ground arith) refl refl refl h',
      )

  -- Whatever a task is, it runs, and opens what it asks for.
  task-Runs :
      (task : Task F) (p : Progress F R) (asked : List String)
      → Follows o.ttl id w r asked p
      → Runs (asked ++ opened_by task) (run_task o id task p)
  unfolding run_task
  task-Runs (unlock_one a) p asked h = unlock-Runs p a asked h
  task-Runs (configure_one a c target settings) p asked h =
      configure-Runs p a c target settings asked h
  task-Runs (update_route reason) p asked h =
      (_, refl, rw append-nil (same-Follows p _ refl refl refl h))
  task-Runs recycle_binding p asked h = recycle-Runs p asked h
  task-Runs nothing p asked h = (p, refl, rw append-nil h)

  pub run_actions-Runs :
      (actions : List (ControllerAction F)) (p : Progress F R) (asked : List String)
      → Follows o.ttl id w r asked p
      → (q : Progress F R) × (run_actions o id actions p ≡ ok q)
        × Follows o.ttl id w r (asked ++ opened_by_actions actions) q
  unfolding run_actions opened_by_actions
  run_actions-Runs [] p asked h = (p, refl, rw append-nil h)
  run_actions-Runs (action ∷ rest) p asked h =
      let (q, e, h') = task-Runs (task_of action) p asked h in
      let (last, e', h'') = run_actions-Runs rest q (asked ++ opened_by (task_of action)) h' in
      (
        last,
        rw e e',
        rw (sym (append_assoc asked (opened_by (task_of action)) (opened_by_actions rest))) h'',
      )
