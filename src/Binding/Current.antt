-- ===== src/Binding/Current.antt =====
-- The binding that `resolve` finds for an attacker, after a write of services/binding_service.
use mathlib.Core.Option
use honeypot_fyp.Prelude.{
  String, true, [], ◌∷◌, map, Option, none, some, any, All, All-map, ◌≡◌, ◌⊎◌, inl, inr, refl, sym,
  ap, ◌∙◌, arith, eq_iff, ◌==◌, string_eq, Distinct, member, if◌then◌else◌,
}
use honeypot_fyp.Common.Dict.{last_of, get-of_pairs}
use honeypot_fyp.Contracts.Bindings.{BindingRecord}
use honeypot_fyp.Binding.Repository.{
  Records, by_binding, get_by_attacker, get_by_binding, same_id, upsert,
}
use honeypot_fyp.Binding.Lookup.{
  ids, In, SameAttacker, substitute, member-ids-any, In-member, In-unique, get_by_attacker_lem,
  get_by_attacker-upsert,
}

In-last_of :
    (f : BindingRecord → String) (k : String) (found : Option BindingRecord) (xs : Records)
    (r : BindingRecord)
    → last_of k found (map (λ (x : BindingRecord). (f x, x)) xs) ≡ some r
    → (found ≡ some r) ⊎ (In r xs × (f r ≡ k))
In-last_of f k found [] r h = inl h
In-last_of f k found (x ∷ xs) r h =
    ground (arith, In-last_of f k (if f x == k then some x else found) xs r h, eq_iff (f x) k)

-- What is found is in the list, under the key that was asked for.
pub found_by_binding :
    (k : String) (xs : Records) (r : BindingRecord)
    → get_by_binding k xs ≡ some r
    → In r xs × (r.binding_id ≡ k)
unfolding get_by_binding
found_by_binding k xs r h =
    ground (arith, get-of_pairs k (map by_binding xs), In-last_of (λ x. x.binding_id) k none xs r)

pub found_by_attacker :
    (a : String) (xs : Records) (r : BindingRecord)
    → Distinct (ids xs)
    → get_by_attacker a xs ≡ some r
    → In r xs × (r.attacker_key ≡ a)
found_by_attacker a xs r d h =
    ground (arith, get_by_attacker_lem a xs d, In-last_of (λ x. x.attacker_key) a none xs r)

last_of_unique :
    (r : BindingRecord) (found : Option BindingRecord) (xs : Records)
    → All (λ (x : BindingRecord). x.binding_id ≡ r.binding_id → x ≡ r) xs
    → (found ≡ some r) ⊎ In r xs
    → last_of r.binding_id found (map by_binding xs) ≡ some r
last_of_unique r found [] u (inl h) = h
last_of_unique r found [] u (inr h) = absurd h
last_of_unique r found (x ∷ xs) u h = ground (
  arith,
  last_of_unique r (if x.binding_id == r.binding_id then some x else found) xs u.1,
  u.0,
  eq_iff x.binding_id r.binding_id,
)

-- A record of the list is found under its id.
pub get_by_binding-In :
    (r : BindingRecord) (xs : Records)
    → Distinct (ids xs)
    → In r xs
    → get_by_binding r.binding_id xs ≡ some r
unfolding get_by_binding
get_by_binding-In r xs d there =
    get-of_pairs r.binding_id (map by_binding xs)
    ∙ last_of_unique r none xs (In-unique r xs d there) (inr there)

-- A record of the list that is written back changed, with its id and its attacker kept.
module _ (r s : BindingRecord) (xs : Records) (d : Distinct (ids xs)) (there : In r xs)
    (same_binding : s.binding_id ≡ r.binding_id) (same_key : s.attacker_key ≡ r.attacker_key) where
  kept_attacker : SameAttacker s xs
  kept_attacker =
      All-map _ _ xs
        (λ x e p. ap (λ (y : BindingRecord). y.attacker_key) (e (p ∙ same_binding)) ∙ sym same_key)
        (In-unique r xs d there)

  matched : any (same_id s) xs ≡ true
  matched = member-ids-any s xs ∙ ap (λ k. member k (ids xs)) same_binding ∙ In-member r xs there

  -- Each attacker finds the record that it found before, changed if it is this one.
  pub get_by_attacker-rewrite :
      (a : String)
      → get_by_attacker a (upsert s xs).1 ≡ Option.map (substitute s) (get_by_attacker a xs)
  get_by_attacker-rewrite a = rw (get_by_attacker-upsert s a xs d kept_attacker, matched)

substitute_self : (r s : BindingRecord) → s.binding_id ≡ r.binding_id → substitute s r ≡ s
unfolding substitute
substitute_self r s e = ground (arith, eq_iff r.binding_id s.binding_id)

-- The current record of an attacker, written back changed, is the current one.
pub rewrite_is_current :
    (r s : BindingRecord) (a : String) (xs : Records)
    → Distinct (ids xs)
    → get_by_attacker a xs ≡ some r
    → s.binding_id ≡ r.binding_id
    → s.attacker_key ≡ r.attacker_key
    → get_by_attacker a (upsert s xs).1 ≡ some s
rewrite_is_current r s a xs d h same_binding same_key =
    get_by_attacker-rewrite r s xs d (found_by_attacker a xs r d h).0 same_binding same_key a
    ∙ ap (Option.map (substitute s)) h
    ∙ ap some (substitute_self r s same_binding)

substitute-id : (s x : BindingRecord) → (substitute s x).binding_id ≡ x.binding_id
unfolding substitute
substitute-id s x = ground (arith, eq_iff x.binding_id s.binding_id)

abbrev pub id_of : Option BindingRecord → Option String
id_of = Option.map (λ (x : BindingRecord). x.binding_id)

pub id_of-substitute :
    (s : BindingRecord) (o : Option BindingRecord) → id_of (Option.map (substitute s) o) ≡ id_of o
id_of-substitute s none = refl
id_of-substitute s (some x) = ap some (substitute-id s x)
