-- ===== src/AssetGateway/Chosen.antt =====
-- Which route the gateway chooses among those of a call of `upsert_asset_gateway_routes` of
-- services/orchestrator/runtime_routes.py and those that were kept.
use honeypot_fyp.Prelude.{
  ℕ, String, Bool, false, ◌&&◌, ◌||◌, List, [], ◌∷◌, ◌++◌, Option, none, some, any, All, All-append,
  filter, ◌==◌, string_eq, ◌≡◌, refl, sym, ap, ◌∙◌, arith, Bool-cases, inl, inr, eq_iff, any-append,
  filter-append, append-nil,
}
use honeypot_fyp.Common.Dict.{get}
use honeypot_fyp.Common.Json.{Json, null, bool, num, text, arr, obj, fields, Host}
use honeypot_fyp.Common.Numbers.{Numbers, as_int}
use honeypot_fyp.Common.Sorting.{last, sort_by, last-sort_by}
use honeypot_fyp.Common.Text.Order.{text_lt, text_lt_asym}
use honeypot_fyp.AssetGateway.Select.{
  AssetRoute, is_on_port, is_of_client, updated_before, exact_route,
}
use honeypot_fyp.AssetGateway.Isolated.{last-Holds}
use honeypot_fyp.AssetGateway.Upsert.{RouteContext, host_name, backend_port_of}
use honeypot_fyp.AssetGateway.Table.{made, made_of}

filter-filter :
    (p q : AssetRoute → Bool) (xs : List AssetRoute)
    → filter p (filter q xs) ≡ filter (λ x. q x && p x) xs
filter-filter p q [] = refl
filter-filter p q (x ∷ xs) = ground (arith, filter-filter p q xs)

any-filter_none :
    (p q : AssetRoute → Bool) (xs : List AssetRoute)
    → any p xs ≡ false
    → any p (filter q xs) ≡ false
any-filter_none p q [] h = refl
any-filter_none p q (x ∷ xs) h = ground (arith, any-filter_none p q xs)

any_weaken :
    (p q r : AssetRoute → Bool) (xs : List AssetRoute)
    → any (λ x. p x && q x) xs ≡ false
    → any (λ x. p x && (r x && q x)) xs ≡ false
any_weaken p q r [] h = refl
any_weaken p q r (x ∷ xs) h = ground (arith, any_weaken p q r xs)

last-append :
    (xs ys : List AssetRoute) (r : AssetRoute) → last ys ≡ some r → last (xs ++ ys) ≡ some r
unfolding last
last-append [] ys r h = h
last-append (x ∷ []) [] r h = cc
last-append (x ∷ []) (y ∷ ys) r h = h
last-append (x ∷ x' ∷ xs) ys r h = last-append (x' ∷ xs) ys r h

text_lt_irrefl : (s : String) → text_lt s s ≡ false
text_lt_irrefl s = elim (Bool-cases (text_lt s s)) [
  | inl less ↦ text_lt_asym s s less
  | inr not_less ↦ not_less
]

module _ {F : Type 0} ⦃numbers : Numbers F⦄ (host : Host F) (c : RouteContext) where
  abbrev IsNew : AssetRoute → Type 0
  IsNew r = (r.attacker_key ≡ c.attacker_key) × (r.updated_at ≡ c.updated_at)

  made_of-IsNew :
      (port : Option ℕ) (backend : Option String) (backend_port : Option ℕ)
      → All IsNew (made_of host c port backend backend_port)
  made_of-IsNew (some p) (some b) (some q) = ((refl, refl), tt)
  made_of-IsNew none backend backend_port = tt
  made_of-IsNew (some p) none backend_port = tt
  made_of-IsNew (some p) (some b) none = tt

  pub made-IsNew : (ms : List (Json F)) → All IsNew (made host c ms)
  made-IsNew [] = tt
  made-IsNew (obj fs ∷ rest) =
      All-append IsNew _ (made host c rest)
        (made_of-IsNew (as_int (get "host_port" (fields fs)))
          (host_name (get "backend_host" (fields fs))) (as_int (backend_port_of (fields fs))))
        (made-IsNew rest)
  made-IsNew (null ∷ rest) = made-IsNew rest
  made-IsNew (bool b ∷ rest) = made-IsNew rest
  made-IsNew (num n ∷ rest) = made-IsNew rest
  made-IsNew (text t ∷ rest) = made-IsNew rest
  made-IsNew (arr vs ∷ rest) = made-IsNew rest

  All-filter :
      (q : AssetRoute → Bool) (rs : List AssetRoute) → All IsNew rs → All IsNew (filter q rs)
  All-filter q [] h = tt
  All-filter q (r ∷ rs) h = elim (Bool-cases (q r)) [
    | inl kept ↦ rw kept (h.0, All-filter q rs h.1)
    | inr gone ↦ rw gone (All-filter q rs h.1)
  ]

  -- the new routes are all of the attacker, and none of another client
  own-filter : (rs : List AssetRoute) → All IsNew rs → filter (is_of_client c.attacker_key) rs ≡ rs
  own-filter [] h = refl
  own-filter (r ∷ rs) h =
      rw ((eq_iff r.attacker_key c.attacker_key).1 h.0.0) (ap (◌∷◌ r) (own-filter rs h.1))

  other-filter :
      (client : String) (q : AssetRoute → Bool) (rs : List AssetRoute)
      → (c.attacker_key == client) ≡ false
      → All IsNew rs
      → filter (λ r. q r && is_of_client client r) rs ≡ []
  other-filter client q [] ne h = refl
  other-filter client q (r ∷ rs) ne h =
      let not_client : (r.attacker_key == client) ≡ false = ap (λ k. k == client) h.0.0 ∙ ne in
      ground (arith, other-filter client q rs ne h.1, not_client)

  none_later :
      (rs : List AssetRoute) (r : AssetRoute)
      → IsNew r
      → All IsNew rs
      → any (updated_before r) rs ≡ false
  unfolding updated_before
  none_later [] r is h = refl
  none_later (x ∷ rs) r is h =
      let first : text_lt r.updated_at x.updated_at ≡ false =
        ap (λ s. text_lt s x.updated_at) is.1
        ∙ ap (λ s. text_lt c.updated_at s) h.0.1
        ∙ text_lt_irrefl c.updated_at in
      ap (λ b. b || any (updated_before r) rs) first ∙ none_later rs r is h.1

  -- The newest route on a port is the one that the attacker gets.
  pub exact_route_new :
      (port : ℕ) (olds news : List AssetRoute) (r : AssetRoute)
      → All IsNew news
      → any (λ x. text_lt c.updated_at x.updated_at) olds ≡ false
      → last (filter (is_on_port port) news) ≡ some r
      → exact_route c.attacker_key (filter (is_on_port port) (olds ++ news)) ≡ some r
  unfolding exact_route updated_before
  exact_route_new port olds news r new h is =
      let on_port = is_on_port port in
      let own = is_of_client c.attacker_key in
      let r_new = last-Holds IsNew (filter on_port news) r (All-filter on_port news new) is in
      let split : filter own (filter on_port (olds ++ news))
          ≡ filter own (filter on_port olds) ++ filter on_port news =
        ap (filter own) (filter-append on_port olds news)
        ∙ filter-append own (filter on_port olds) (filter on_port news)
        ∙ ap (λ z. filter own (filter on_port olds) ++ z)
            (own-filter (filter on_port news) (All-filter on_port news new)) in
      let old_first : any (updated_before r) olds ≡ false =
        ap (λ s. any (λ x. text_lt s x.updated_at) olds) r_new.1 ∙ h in
      let none_before : any (updated_before r) (olds ++ news) ≡ false =
        any-append (updated_before r) olds news
        ∙ rw (old_first, none_later news r r_new new) refl in
      last-sort_by updated_before (filter own (filter on_port (olds ++ news))) r
        (ap last split ∙ last-append (filter own (filter on_port olds)) (filter on_port news) r is)
        (any-filter_none (updated_before r) own (filter on_port (olds ++ news))
          (any-filter_none (updated_before r) on_port (olds ++ news) none_before))

  -- Another client keeps its routes.
  pub exact_route_other :
      (client : String) (port : ℕ) (olds kept news : List AssetRoute)
      → (c.attacker_key == client) ≡ false
      → All IsNew news
      → ((q : AssetRoute → Bool)
          → any (λ r. r.binding_id == c.binding_id && q r) olds ≡ false
          → filter q kept ≡ filter q olds)
      → any (λ r. r.binding_id == c.binding_id && is_of_client client r) olds ≡ false
      → exact_route client (filter (is_on_port port) (kept ++ news))
        ≡ exact_route client (filter (is_on_port port) olds)
  unfolding exact_route
  exact_route_other client port olds kept news ne new keeps own =
      let on_port = is_on_port port in
      let theirs = is_of_client client in
      let both = λ (r : AssetRoute). on_port r && theirs r in
      ap (λ z. last (sort_by updated_before z))
        (filter-filter theirs on_port (kept ++ news)
          ∙ filter-append both kept news
          ∙ ap (λ z. filter both kept ++ z) (other-filter client on_port news ne new)
          ∙ append-nil (filter both kept)
          ∙ keeps both (any_weaken (λ r. r.binding_id == c.binding_id) theirs on_port olds own)
          ∙ sym (filter-filter theirs on_port olds))
