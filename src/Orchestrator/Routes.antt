-- ===== src/Orchestrator/Routes.antt =====
-- The route updates of services/orchestrator/domain.py: the texts that the orchestrator writes, and
-- `_new_asset_ids_from_route_updates`, which reads the asset ids back from them.
use honeypot_fyp.Prelude.{
  String, not, List, [], ◌∷◌, ◌++◌, map, Option, none, some, filter, member, string_eq, ◌&&◌,
}
use honeypot_fyp.Common.Text.{concat, after_last}

unfoldable pub exposes : String → String → String
exposes binding_id asset_id = concat "binding " (concat binding_id (concat " exposes " asset_id))

unfoldable pub routes : String → String → String
routes binding_id asset_id = concat "binding " (concat binding_id (concat " routes " asset_id))

unfoldable pub configures : String → String → String → String
configures binding_id asset_id configuration_id =
    concat "binding "
      (concat binding_id (concat " configures " (concat asset_id (concat ":" configuration_id))))

unfoldable pub recycled : String → String
recycled binding_id = concat "binding " (concat binding_id " recycled")

unfoldable pub route_update : String → String → String
route_update binding_id reason =
    concat "binding " (concat binding_id (concat " route update: " reason))

abbrev pub first_some : Option String → Option String → List String → List String
first_some (some a) other rest = a ∷ rest
first_some none (some a) rest = a ∷ rest
first_some none none rest = rest

-- `_new_asset_ids_from_route_updates`
unfoldable pub new_asset_ids : List String → List String
unfolding after_last
new_asset_ids [] = []
new_asset_ids (update ∷ rest) =
    first_some (after_last 9 " exposes " update) (after_last 8 " routes " update)
      (new_asset_ids rest)

-- The updates of `_apply_unlocks`: the ids that are new, then those asked for that were open already.
unfoldable pub unlock_route_updates : String → List String → List String → List String → List String
unfolding exposes routes
unlock_route_updates binding_id previous updated asked =
    map (exposes binding_id) (filter (λ id. not (member id previous)) updated)
    ++ map (routes binding_id) (filter (λ id. member id previous && member id updated) asked)
