-- ===== src/AssetGateway/Table.antt =====
-- The typed routes of a table after `replace_list_items` of libs/common/json_store.py has written entries of
-- one binding.
use mathlib.Core.Option.{some-injective}
use honeypot_fyp.Prelude.{
  ℕ, String, List, [], ◌∷◌, ◌++◌, Option, none, some, All, string_eq, ◌≡◌, refl, sym, ap, ◌∙◌,
  Option-cases, inl, inr, append_assoc,
}
use honeypot_fyp.Common.Dict.{Dict, get}
use honeypot_fyp.Common.Json.{
  Json, null, bool, num, text, arr, obj, fields, fields-fields_of, as_dict, Fields, Host, text_of,
}
use honeypot_fyp.Common.Numbers.{Numbers, as_int, int_or_zero}
use honeypot_fyp.Common.JsonStore.Replace.{◌>>=◌, objects}
use honeypot_fyp.AssetGateway.Select.{AssetRoute}
use honeypot_fyp.AssetGateway.Load.{text_at, route_from_item, routes_from}
use honeypot_fyp.AssetGateway.Upsert.{
  RouteContext, host_name, route_entry, backend_port_of, entry_from, entry_of, new_routes,
}

module _ {F : Type 0} ⦃numbers : Numbers F⦄ (host : Host F) where
  -- What an item adds to the routes: one with its binding id, or none for an item that is no object.
  pub record Reads (x : Json F) (xs : List (Json F)) (rs : List AssetRoute) : Type 0 where
    pub here : List AssetRoute
    pub later : List AssetRoute
    pub rest_is : routes_from host xs ≡ some later
    pub is : rs ≡ here ++ later
    pub adds :
        (ys : List (Json F)) (ss : List AssetRoute)
        → routes_from host ys ≡ some ss
        → routes_from host (x ∷ ys) ≡ some (here ++ ss)
    pub of_binding :
        (b : String)
        → get "binding_id" (as_dict (some x)) ≡ some (text b)
        → All (λ r. r.binding_id ≡ b) here

  route_from_item-binding :
      (item : Dict (Json F)) (r : AssetRoute) (b : String)
      → route_from_item host item ≡ some r
      → get "binding_id" item ≡ some (text b)
      → r.binding_id ≡ b
  unfolding route_from_item text_at text_of
  route_from_item-binding item r b h k =
      let is : text_at host "binding_id" item ≡ b = rw (k, text_at) refl in
      elim (Option-cases (int_or_zero (get "public_port" item))) [
        | inl bad ↦ absurd (none_some (rw (bad, ◌>>=◌) at h))
        | inr (port, p) ↦ elim (Option-cases (int_or_zero (get "backend_port" item))) [
          | inl bad ↦ absurd (none_some (rw (p, bad, ◌>>=◌) at h))
          | inr (backend, q) ↦
              sym (ap (λ x. x.binding_id) (some-injective _ r (rw (p, q, ◌>>=◌) at h))) ∙ is
        ]
      ]
    where
      none_some : none ≡ some r → ⊥
      none_some e = cc

  routes_from-obj :
      (fs : Fields F) (xs : List (Json F)) (rs : List AssetRoute)
      → routes_from host (obj fs ∷ xs) ≡ some rs
      → Reads (obj fs) xs rs
  unfolding routes_from
  routes_from-obj fs xs rs h = elim (Option-cases (route_from_item host (fields fs))) [
    | inl bad ↦ absurd (none_some (rw (bad, ◌>>=◌) at h))
    | inr (r, good) ↦ elim (Option-cases (routes_from host xs)) [
      | inl bad ↦ absurd (none_some (rw (good, bad, ◌>>=◌) at h))
      | inr (later, rest) ↦ record {
        here = r ∷ [];
        later = later;
        rest_is = rest;
        is = sym (some-injective (r ∷ later) rs (rw (good, rest, ◌>>=◌) at h));
        adds = λ ys ss k. rw (good, k, ◌>>=◌) refl;
        of_binding = λ b k. (route_from_item-binding (fields fs) r b good k, tt);
      }
    ]
  ]
    where
      none_some : none ≡ some rs → ⊥
      none_some e = cc

  skipped :
      (x : Json F) (xs : List (Json F)) (rs : List AssetRoute)
      → ((ys : List (Json F)) → routes_from host (x ∷ ys) ≡ routes_from host ys)
      → routes_from host (x ∷ xs) ≡ some rs
      → Reads x xs rs
  skipped x xs rs skips h = record {
    here = [];
    later = rs;
    rest_is = sym (skips xs) ∙ h;
    is = refl;
    adds = λ ys ss k. skips ys ∙ k;
    of_binding = λ b k. tt;
  }

  pub routes_from-cons :
      (x : Json F) (xs : List (Json F)) (rs : List AssetRoute)
      → routes_from host (x ∷ xs) ≡ some rs
      → Reads x xs rs
  unfolding routes_from
  routes_from-cons (obj fs) xs rs h = routes_from-obj fs xs rs h
  routes_from-cons null xs rs h = skipped null xs rs (λ ys. refl) h
  routes_from-cons (bool b) xs rs h = skipped (bool b) xs rs (λ ys. refl) h
  routes_from-cons (num n) xs rs h = skipped (num n) xs rs (λ ys. refl) h
  routes_from-cons (text s) xs rs h = skipped (text s) xs rs (λ ys. refl) h
  routes_from-cons (arr vs) xs rs h = skipped (arr vs) xs rs (λ ys. refl) h

  pub routes_from-append :
      (xs ys : List (Json F)) (rs ss : List AssetRoute)
      → routes_from host xs ≡ some rs
      → routes_from host ys ≡ some ss
      → routes_from host (xs ++ ys) ≡ some (rs ++ ss)
  unfolding routes_from
  routes_from-append [] ys rs ss h k = rw (sym (some-injective [] rs h)) k
  routes_from-append (x ∷ xs) ys rs ss h k =
      let read = routes_from-cons x xs rs h in
      read.adds (xs ++ ys) (read.later ++ ss)
        (routes_from-append xs ys read.later ss read.rest_is k)
      ∙ ap some (sym (append_assoc read.here read.later ss) ∙ ap (λ z. z ++ ss) (sym read.is))

  -- the route that the gateway reads from an entry
  abbrev pub route_of : RouteContext → ℕ → String → ℕ → AssetRoute
  route_of c public_port backend_host backend_port = record {
    attacker_key = c.attacker_key;
    binding_id = c.binding_id;
    asset_id = c.asset_id;
    public_port = public_port;
    backend_host = backend_host;
    backend_port = backend_port;
    updated_at = c.updated_at;
  }

  abbrev pub made_of : RouteContext → Option ℕ → Option String → Option ℕ → List AssetRoute
  made_of c (some public_port) (some backend_host) (some backend_port) =
      route_of c public_port backend_host backend_port ∷ []
  made_of c _ _ _ = []

  -- The routes of the port mappings that have a port, a backend and its port.
  abbrev pub made : RouteContext → List (Json F) → List AssetRoute
  made c [] = []
  made c (obj fs ∷ rest) =
      made_of c (as_int (get "host_port" (fields fs))) (host_name (get "backend_host" (fields fs)))
        (as_int (backend_port_of (fields fs)))
      ++ made c rest
  made c (m ∷ rest) = made c rest

  route_from_item-route_entry :
      (c : RouteContext) (port : ℕ) (backend : String) (backend_port : ℕ)
      → route_from_item host (route_entry c port backend backend_port)
        ≡ some (route_of c port backend backend_port)
  unfolding route_from_item route_entry text_at get text_of
  route_from_item-route_entry c port backend backend_port =
      rw (numbers.trunc-of_int port, numbers.trunc-of_int backend_port) refl

  routes_from-objects :
      (entry : Dict (Json F)) (r : AssetRoute) (rest : List (Dict (Json F))) (rs : List AssetRoute)
      → route_from_item host entry ≡ some r
      → routes_from host (objects rest) ≡ some rs
      → routes_from host (objects (entry ∷ rest)) ≡ some (r ∷ rs)
  unfolding routes_from
  routes_from-objects entry r rest rs h k = rw (fields-fields_of entry, h, k, ◌>>=◌) refl

  routes_from-entry_from :
      (c : RouteContext) (port : Option ℕ) (backend : Option String) (backend_port : Option ℕ)
      (rest : List (Dict (Json F))) (rs : List AssetRoute)
      → routes_from host (objects rest) ≡ some rs
      → routes_from host (
          objects (elim (entry_from c port backend backend_port) [
            | some entry ↦ entry ∷ rest
            | none ↦ rest
          ]))
        ≡ some (made_of c port backend backend_port ++ rs)
  unfolding entry_from routes_from
  routes_from-entry_from c (some p) (some b) (some q) rest rs h =
      routes_from-objects (route_entry c p b q) (route_of c p b q) rest rs
        (route_from_item-route_entry c p b q) h
  routes_from-entry_from c none backend backend_port rest rs h = h
  routes_from-entry_from c (some p) none backend_port rest rs h = h
  routes_from-entry_from c (some p) (some b) none rest rs h = h

  pub routes_from-new_routes :
      (c : RouteContext) (ms : List (Json F))
      → routes_from host (objects (new_routes c ms)) ≡ some (made c ms)
  unfolding new_routes entry_of routes_from
  routes_from-new_routes c [] = refl
  routes_from-new_routes c (obj fs ∷ rest) =
      routes_from-entry_from c (as_int (get "host_port" (fields fs)))
        (host_name (get "backend_host" (fields fs))) (as_int (backend_port_of (fields fs)))
        (new_routes c rest) (made c rest) (routes_from-new_routes c rest)
  routes_from-new_routes c (null ∷ rest) = routes_from-new_routes c rest
  routes_from-new_routes c (bool b ∷ rest) = routes_from-new_routes c rest
  routes_from-new_routes c (num n ∷ rest) = routes_from-new_routes c rest
  routes_from-new_routes c (text t ∷ rest) = routes_from-new_routes c rest
  routes_from-new_routes c (arr vs ∷ rest) = routes_from-new_routes c rest
