-- ===== src/Orchestrator/Updates.antt =====
-- The route updates of services/orchestrator/domain.py, written and read back.
use honeypot_fyp.Prelude.{
  ℕ, String, Bool, true, not, ◌&&◌, List, [], ◌∷◌, ◌++◌, map, none, some, filter, member, string_eq,
  ◌≡◌, refl, ap, ◌∙◌, All, Bool-cases, inl, inr,
}
use honeypot_fyp.Common.Text.{concat, after_last, or_here}
use honeypot_fyp.Orchestrator.Routes.{exposes, routes, new_asset_ids, unlock_route_updates}

-- Neither mark occurs in the texts of an asset but where the update has it.
pub record IsReadable (binding_id asset_id : String) : Type 0 where
  pub no_exposes : after_last 9 " exposes " (concat "exposes " asset_id) ≡ none
  pub no_routes : after_last 8 " routes " (concat "routes " asset_id) ≡ none
  pub not_exposed : after_last 9 " exposes " (routes binding_id asset_id) ≡ none

after_last-concat :
    (n : ℕ) (mark x s a : String)
    → after_last n mark s ≡ some a
    → after_last n mark (concat x s) ≡ some a
unfolding after_last
after_last-concat n mark String.[] s a h = h
after_last-concat n mark (String.◌∷◌ c x) s a h = rw (after_last-concat n mark x s a h) refl

at_exposes :
    (asset_id : String)
    → after_last 9 " exposes " (concat "exposes " asset_id) ≡ none
    → after_last 9 " exposes " (concat " exposes " asset_id) ≡ some asset_id
unfolding after_last
at_exposes asset_id h = ap (λ o. or_here o true asset_id) h

after_exposes :
    (binding_id asset_id : String)
    → after_last 9 " exposes " (concat "exposes " asset_id) ≡ none
    → after_last 9 " exposes " (exposes binding_id asset_id) ≡ some asset_id
unfolding exposes
after_exposes binding_id asset_id h = after_last-concat 9 " exposes " "binding " _ asset_id (
    after_last-concat 9 " exposes " binding_id (concat " exposes " asset_id) asset_id
      (at_exposes asset_id h))

at_routes :
    (asset_id : String)
    → after_last 8 " routes " (concat "routes " asset_id) ≡ none
    → after_last 8 " routes " (concat " routes " asset_id) ≡ some asset_id
unfolding after_last
at_routes asset_id h = ap (λ o. or_here o true asset_id) h

after_routes :
    (binding_id asset_id : String)
    → after_last 8 " routes " (concat "routes " asset_id) ≡ none
    → after_last 8 " routes " (routes binding_id asset_id) ≡ some asset_id
unfolding routes
after_routes binding_id asset_id h = after_last-concat 8 " routes " "binding " _ asset_id (
    after_last-concat 8 " routes " binding_id (concat " routes " asset_id) asset_id
      (at_routes asset_id h))

new_asset_ids-exposes :
    (b : String) (ids updates : List String)
    → All (IsReadable b) ids
    → new_asset_ids (map (exposes b) ids ++ updates) ≡ ids ++ new_asset_ids updates
unfolding new_asset_ids
new_asset_ids-exposes b [] updates h = refl
new_asset_ids-exposes b (a ∷ ids) updates h =
    rw (after_exposes b a h.0.no_exposes) (ap (◌∷◌ a) (new_asset_ids-exposes b ids updates h.1))

new_asset_ids-routes :
    (b : String) (ids : List String)
    → All (IsReadable b) ids
    → new_asset_ids (map (routes b) ids) ≡ ids
unfolding new_asset_ids
new_asset_ids-routes b [] h = refl
new_asset_ids-routes b (a ∷ ids) h =
    rw (h.0.not_exposed, after_routes b a h.0.no_routes)
      (ap (◌∷◌ a) (new_asset_ids-routes b ids h.1))

All-filter :
    (P : String → Type 0) (p : String → Bool) (xs : List String) → All P xs → All P (filter p xs)
All-filter P p [] h = tt
All-filter P p (x ∷ xs) h = elim (Bool-cases (p x)) [
  | inl kept ↦ rw kept (h.0, All-filter P p xs h.1)
  | inr dropped ↦ rw dropped (All-filter P p xs h.1)
]

-- Where neither mark occurs in the ids but where the updates have it, the ids that are read back
-- from the route updates of an unlock are the newly opened assets, and then those asked for that
-- were open already.
pub new_asset_ids-unlock_route_updates :
    (b : String) (previous updated asked : List String)
    → All (IsReadable b) updated
    → All (IsReadable b) asked
    → new_asset_ids (unlock_route_updates b previous updated asked)
      ≡ filter (λ id. not (member id previous)) updated
        ++ filter (λ id. member id previous && member id updated) asked
unfolding unlock_route_updates
new_asset_ids-unlock_route_updates b previous updated asked h k =
    new_asset_ids-exposes b _ _
      (All-filter (IsReadable b) (λ id. not (member id previous)) updated h)
    ∙ ap (λ ids. filter (λ id. not (member id previous)) updated ++ ids)
        (new_asset_ids-routes b _
          (All-filter (IsReadable b) (λ id. member id previous && member id updated) asked k))
