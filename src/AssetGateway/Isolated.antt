-- ===== src/AssetGateway/Isolated.antt =====
-- Whose backend `select_route` of services/asset_gateway/app.py gives.
use mathlib.Core.Option.{some-injective}
use honeypot_fyp.Prelude.{
  ℕ, String, Bool, true, List, [], ◌∷◌, none, some, filter, length, ◌≡◌, ◌∙◌, ◌⊎◌, refl, sym, ap,
  inl, inr, eq_iff, nat_beq_iff, string_eq, nat_eq, All, Bool-cases, Option-cases,
}
use honeypot_fyp.Common.Sorting.{last, All-sort_by}
use honeypot_fyp.AssetGateway.Select.{
  AssetRoute, is_on_port, is_of_client, updated_before, single_route, exact_route, select_route,
}

kept_both :
    (p q : AssetRoute → Bool) (xs : List AssetRoute)
    → All (λ x. p x ≡ true) xs
    → All (λ x. (p x ≡ true) × (q x ≡ true)) (filter q xs)
kept_both p q [] h = tt
kept_both p q (x ∷ xs) h = elim (Bool-cases (q x)) [
  | inl kept ↦ rw kept ((h.0, kept), kept_both p q xs h.1)
  | inr dropped ↦ rw dropped (kept_both p q xs h.1)
]

kept : (p : AssetRoute → Bool) (xs : List AssetRoute) → All (λ x. p x ≡ true) (filter p xs)
kept p [] = tt
kept p (x ∷ xs) = elim (Bool-cases (p x)) [
  | inl yes' ↦ rw yes' (yes', kept p xs)
  | inr no' ↦ rw no' (kept p xs)
]

pub last-Holds :
    (P : AssetRoute → Type 0) (xs : List AssetRoute) (r : AssetRoute)
    → All P xs
    → last xs ≡ some r
    → P r
unfolding last
last-Holds P [] r h e = cc
last-Holds P (x ∷ []) r h e = rw (sym (some-injective x r e)) h.0
last-Holds P (x ∷ y ∷ rest) r h e = last-Holds P (y ∷ rest) r h.1 e

single-Holds :
    (P : AssetRoute → Type 0) (xs : List AssetRoute) (r : AssetRoute)
    → All P xs
    → single_route xs ≡ some r
    → P r × (length xs ≡ 1)
unfolding single_route
single-Holds P [] r h e = cc
single-Holds P (x ∷ []) r h e = (rw (sym (some-injective x r e)) h.0, refl)
single-Holds P (x ∷ y ∷ rest) r h e = cc

-- The route is on the port; it is the client's own, or the fallback is allowed and it is the only one.
abbrev pub IsFor : List AssetRoute → String → ℕ → Bool → AssetRoute → Type 0
IsFor routes client_ip port fallback r =
    (r.public_port ≡ port)
    × ((r.attacker_key ≡ client_ip)
        ⊎ ((fallback ≡ true) × (length (filter (is_on_port port) routes) ≡ 1)))

-- A route that select_route gives is on the public port of the connection, and its attacker is the
-- client, unless the fallback is allowed and it is the only route on the port.
pub select_route-IsFor :
    (routes : List AssetRoute) (client_ip : String) (port : ℕ) (fallback : Bool) (r : AssetRoute)
    → select_route routes client_ip port fallback ≡ some r
    → IsFor routes client_ip port fallback r
unfolding select_route exact_route
select_route-IsFor routes client_ip port fallback r h =
    let on_port = filter (is_on_port port) routes in
    let Both = λ (x : AssetRoute). (is_on_port port x ≡ true) × (is_of_client client_ip x ≡ true) in
    let both = All-sort_by Both updated_before (filter (is_of_client client_ip) on_port) (
      kept_both (is_on_port port) (is_of_client client_ip) on_port
        (kept (is_on_port port) routes)) in
    elim (Option-cases (exact_route client_ip on_port)) [
      | inr (own, found) ↦
          let same : own ≡ r = some-injective own r (rw found at h) in
          let (port_is, client_is) = last-Holds Both _ r both (found ∙ ap some same) in
          (
            (nat_beq_iff r.public_port port).0 port_is,
            inl ((eq_iff r.attacker_key client_ip).0 client_is),
          )
      | inl nobody ↦ elim (Bool-cases fallback) [
        | inl allowed ↦
            let (port_is, alone) =
              single-Holds (λ x. is_on_port port x ≡ true) on_port r (kept (is_on_port port) routes)
                (rw (nobody, allowed) at h) in
            ((nat_beq_iff r.public_port port).0 port_is, inr (allowed, alone))
        | inr denied ↦ refuted (rw (nobody, denied) at h)
      ]
    ]
  where
    refuted : none ≡ some r → IsFor routes client_ip port fallback r
    refuted e = cc
