-- ===== src/Orchestrator/Promise.antt =====
-- What an `apply` of services/orchestrator/domain.py promises to the binding service and the gateway.
use honeypot_fyp.Prelude.{
  String, false, ◌||◌, [], ◌++◌, some, ◌≡◌, refl, sym, ap, ◌∙◌, arith, ◌==◌, string_eq, member,
  beq_refl,
}
use honeypot_fyp.Contracts.Actions.{OrchestratorApplyRequest}
use honeypot_fyp.Contracts.Bindings.{BindingRecord, GatewayBindingState}
use honeypot_fyp.Binding.Repository.{get_by_binding}
use honeypot_fyp.Binding.Service as Bindings
use honeypot_fyp.Binding.Service.{Outcome, ok, binding_not_found, ◌>>=◌, lookup_or_raise}
use honeypot_fyp.Binding.Current.{found_by_binding}
use honeypot_fyp.Binding.History.{Reach, here}
use honeypot_fyp.Gateway.Service.{Routes, get, updates_of, sync}
use honeypot_fyp.Gateway.History.{get-sync}
use honeypot_fyp.Orchestrator.Runtime.{OrchestratorApplyResponse}
use honeypot_fyp.Orchestrator.Steps.{Orchestrator, World, Progress, now}
use honeypot_fyp.Orchestrator.Service.{
  accessible_asset_ids, failed_asset_ids, sync_request, begin, conclude, apply,
}
use honeypot_fyp.Orchestrator.Follows.{Follows}
use honeypot_fyp.Orchestrator.Applied.{opened_by_actions, run_actions-Runs}

-- The state that the gateway serves for the binding tells what is reachable and what has failed, and
-- its history goes on with the updates.
pub record IsServed {F R : Type 0} (o : Orchestrator F R) (before : Routes) (w : World R)
    (response : OrchestratorApplyResponse F) (state : GatewayBindingState) : Type 0 where
  pub exposed : state.exposed_assets ≡ accessible_asset_ids o.runtime w.containers response.binding
  pub failed : state.failed_assets ≡ failed_asset_ids o.runtime w.containers response.binding
  pub history :
      state.route_updates
      ≡ updates_of (get response.binding.binding_id before) ++ response.route_updates

-- The binding that is returned is stored; the records changed by calls of the binding service only;
-- what is unlocked is what was, and what the actions open; the gateway serves the binding, and every
-- other binding as before.
pub record IsApplied {F R : Type 0} (o : Orchestrator F R) (request : OrchestratorApplyRequest F)
    (w : World R) (r : BindingRecord) (response : OrchestratorApplyResponse F) (w' : World R)
    : Type 0 where
  pub stored : get_by_binding request.binding_id w'.records ≡ some response.binding
  pub reached : Reach o.ttl w.records w'.records
  pub opened :
      (a : String)
      → member a response.binding.unlocked_assets
        ≡ (member a r.unlocked_assets || member a (opened_by_actions request.actions))
  pub served :
      (state : GatewayBindingState) × (get request.binding_id w'.gateway ≡ some state)
      × IsServed o w.gateway w' response state
  pub others : (j : String) → (request.binding_id == j) ≡ false → get j w'.gateway ≡ get j w.gateway

module _ {F R : Type 0} (o : Orchestrator F R) (request : OrchestratorApplyRequest F) (w : World R)
    (r : BindingRecord) where
  conclude-IsApplied :
      (p : Progress F R)
      → Follows o.ttl request.binding_id w r (opened_by_actions request.actions) p
      → IsApplied o request w r (conclude o request.actions p).0 (conclude o request.actions p).1
  unfolding conclude sync_request
  conclude-IsApplied p h =
      let id = request.binding_id in
      let is_id : p.binding.binding_id ≡ id =
        (found_by_binding id p.world.records p.binding h.stored).1 in
      let synced = get-sync (now o p) (sync_request o p) in
      let (found, history, exposed, failed) = synced id p.world.gateway in
      record {
        stored = h.stored;
        reached = h.reached;
        opened = h.opened;
        served = (
          (sync (now o p) (sync_request o p) p.world.gateway).0,
          found ∙ rw (is_id, beq_refl id) refl,
          record { exposed = exposed; failed = failed; history = rw (sym h.gateway_same) history },
        );
        others =
            λ j other. (synced j p.world.gateway).0 ∙ rw (is_id, other) (ap (get j) h.gateway_same);
      }

  -- Where the binding is stored, apply gives a response for any actions and any runtime: the
  -- returned binding is stored, the records changed by calls of the binding service only, the
  -- unlocked assets are those that were and those that the actions open, the gateway serves what is
  -- reachable and what has failed with the new updates at the end of the history, and every other
  -- binding as before.
  pub apply-IsApplied :
      get_by_binding request.binding_id w.records ≡ some r
      → (response : OrchestratorApplyResponse F) × (w' : World R) × (apply o request w
          ≡ ok (response, w'))
        × IsApplied o request w r response w'
  unfolding apply Bindings.get
  apply-IsApplied found =
      let (q, runs, follows) =
        run_actions-Runs o request.binding_id w r request.actions (begin w r) [] (record {
          stored = found;
          reached = here;
          gateway_same = refl;
          opened = λ a. ground arith;
        }) in
      (
        (conclude o request.actions q).0,
        (conclude o request.actions q).1,
        rw (found, runs) refl,
        conclude-IsApplied q follows,
      )
