-- ===== src/AssetGateway/RouteKeys.antt =====
-- The keys of the routes that services/orchestrator/runtime_routes.py replaces.
use mathlib.Core.Option.{some-injective}
use honeypot_fyp.Prelude.{
  ℕ, String, true, List, [], ◌∷◌, Option, none, some, any, All, string_eq, ◌≡◌, refl, sym, ap, ◌∙◌,
  Bool-cases, inl, inr, eq_iff,
}
use honeypot_fyp.Common.Dict.{Dict, get}
use honeypot_fyp.Common.Json.{Json, null, bool, num, text, arr, obj, fields, as_dict}
use honeypot_fyp.Common.Numbers.{Numbers, as_int}
use honeypot_fyp.Common.JsonStore.Replace.{
  Atom, nothing, flag, word, number, ◌>>=◌, atom, compound_key, atom_eq, key_eq, keys_of,
}
use honeypot_fyp.AssetGateway.Upsert.{
  RouteContext, route_key, host_name, route_entry, backend_port_of, entry_from, entry_of,
  new_routes,
}

bind_some {ℓ κ} :
    {A : Type ℓ} {B : Type κ} (m : Option A) (f : A → Option B) {b : B}
    → (m >>= f) ≡ some b
    → (a : A) × (m ≡ some a) × (f a ≡ some b)
bind_some none f h = cc
bind_some (some a) f h = (a, refl, h)

module _ {F : Type 0} ⦃numbers : Numbers F⦄ where
  -- Every key is of the binding.
  abbrev pub IsOf : String → List (List (Atom F)) → Type 0
  IsOf b keys = All (λ key. (rest : List (Atom F)) × (key ≡ word b ∷ rest)) keys

  -- The key of every item that is an object can be hashed.
  abbrev pub HasKeys : List (Json F) → Type 0
  HasKeys xs =
      All (λ x. (key : List (Atom F)) × (compound_key route_key (as_dict (some x)) ≡ some key)) xs

  abbrev AreKeyed : String → List (Dict (Json F)) → Type 0
  AreKeyed b entries =
      (keys : List (List (Atom F))) × (keys_of route_key entries ≡ some keys) × IsOf b keys

  keys_of-entry_from :
      (c : RouteContext) (port : Option ℕ) (backend : Option String) (backend_port : Option ℕ)
      (rest : List (Dict (Json F)))
      → AreKeyed c.binding_id rest
      → AreKeyed c.binding_id (elim (entry_from c port backend backend_port) [
        | some entry ↦ entry ∷ rest
        | none ↦ rest
      ])
  unfolding entry_from keys_of compound_key route_entry atom get
  keys_of-entry_from c (some p) (some b) (some q) rest (keys, h, of_b) = (
    (word c.binding_id ∷ word c.asset_id ∷ number (numbers.of_int p) ∷ []) ∷ keys,
    rw (h, ◌>>=◌) refl,
    ((word c.asset_id ∷ number (numbers.of_int p) ∷ [], refl), of_b),
  )
  keys_of-entry_from c none backend backend_port rest h = h
  keys_of-entry_from c (some p) none backend_port rest h = h
  keys_of-entry_from c (some p) (some b) none rest h = h

  pub keys_of-new_routes :
      (c : RouteContext) (ms : List (Json F)) → AreKeyed c.binding_id (new_routes c ms)
  unfolding new_routes entry_of keys_of
  keys_of-new_routes c [] = ([], refl, tt)
  keys_of-new_routes c (obj fs ∷ rest) =
      keys_of-entry_from c (as_int (get "host_port" (fields fs)))
        (host_name (get "backend_host" (fields fs))) (as_int (backend_port_of (fields fs)))
        (new_routes c rest) (keys_of-new_routes c rest)
  keys_of-new_routes c (null ∷ rest) = keys_of-new_routes c rest
  keys_of-new_routes c (bool b ∷ rest) = keys_of-new_routes c rest
  keys_of-new_routes c (num n ∷ rest) = keys_of-new_routes c rest
  keys_of-new_routes c (text t ∷ rest) = keys_of-new_routes c rest
  keys_of-new_routes c (arr vs ∷ rest) = keys_of-new_routes c rest

  atom_eq-word : (a : Atom F) (b : String) → atom_eq a (word b) ≡ true → a ≡ word b
  unfolding atom_eq
  atom_eq-word nothing b h = cc
  atom_eq-word (flag x) b h = cc
  atom_eq-word (number x) b h = cc
  atom_eq-word (word s) b h = ap word ((eq_iff s b).0 h)

  atom-word : (o : Option (Json F)) (b : String) → atom o ≡ some (word b) → o ≡ some (text b)
  unfolding atom
  atom-word none b h = cc
  atom-word (some null) b h = cc
  atom-word (some (bool x)) b h = cc
  atom-word (some (num x)) b h = cc
  atom-word (some (text s)) b h = cc
  atom-word (some (arr vs)) b h = cc
  atom-word (some (obj fs)) b h = cc

  hit-word :
      (b : String) (a : Atom F) (key : List (Atom F)) (keys : List (List (Atom F)))
      → IsOf b keys
      → any (key_eq (a ∷ key)) keys ≡ true
      → a ≡ word b
  unfolding key_eq
  hit-word b a key [] of_b h = cc
  hit-word b a key (k ∷ ks) ((rest, is), of_b) h = elim (Bool-cases (atom_eq a (word b))) [
    | inl same ↦ atom_eq-word a b same
    | inr other ↦ hit-word b a key ks of_b (rw (is, other) at h)
  ]

  -- An item that is replaced has the binding id of the entries.
  pub key_eq-binding :
      (b : String) (item : Dict (Json F)) (key : List (Atom F)) (keys : List (List (Atom F)))
      → IsOf b keys
      → compound_key route_key item ≡ some key
      → any (key_eq key) keys ≡ true
      → get "binding_id" item ≡ some (text b)
  unfolding compound_key
  key_eq-binding b item key keys of_b h hit =
      let (a, there, more) = bind_some (atom (get "binding_id" item)) _ h in
      let (later, _, is) = bind_some (compound_key ("asset_id" ∷ "public_port" ∷ []) item) _ more in
      let whole = some-injective (a ∷ later) key is in
      atom-word (get "binding_id" item) b
        (there ∙ ap some (hit-word b a later keys of_b (rw (sym whole) at hit)))
