-- ===== src/Binding/Lookup.antt =====
-- What `FileBindingRepository` finds after an `upsert`.
use mathlib.Core.Option
use mathlib.Core.List.{map-append}
use honeypot_fyp.Prelude.{
  String, true, false, List, [], ◌∷◌, ◌++◌, map, Option, none, some, any, All, ◌≡◌, ◌⊎◌, inl, inr,
  refl, sym, ap, ◌∙◌, arith, eq_iff, ◌==◌, string_eq, Distinct, member, Distinct-append_one,
  Bool-cases, if◌then◌else◌, ◌||◌,
}
use honeypot_fyp.Common.Dict.{keys, values, last_of, get-of_pairs, of_pairs-Distinct}
use honeypot_fyp.Common.JsonStore.{replace}
use honeypot_fyp.Common.JsonStore.Keyed.{by_key, upsert_keyed, last-append, by_key-upsert_keyed}
use honeypot_fyp.Contracts.Bindings.{BindingRecord}
use honeypot_fyp.Binding.Repository.{
  Records, by_binding, by_attacker, records_by_binding, get_by_attacker, get_by_binding, same_id,
  upsert,
}

abbrev pub ids : Records → List String
ids = map (λ (r : BindingRecord). r.binding_id)

abbrev pub In : BindingRecord → Records → Type 0
In r [] = ⊥
In r (x ∷ xs) = (r ≡ x) ⊎ In r xs

module _ (r : BindingRecord) where
  -- After an `upsert` its id finds the record, and any other id what it found before.
  pub get_by_binding-upsert :
      (j : String) (xs : Records)
      → get_by_binding j (upsert r xs).1
        ≡ (if r.binding_id == j then some r else get_by_binding j xs)
  unfolding get_by_binding upsert by_key upsert_keyed
  get_by_binding-upsert j xs = by_key-upsert_keyed (λ (x : BindingRecord). x.binding_id) r j xs

  pub member-ids-any : (xs : Records) → any (same_id r) xs ≡ member r.binding_id (ids xs)
  member-ids-any [] = refl
  member-ids-any (x ∷ xs) = ap (λ b. (x.binding_id == r.binding_id) || b) (member-ids-any xs)

  ids-replace : (xs : Records) → ids (replace (same_id r) r xs) ≡ ids xs
  unfolding replace
  ids-replace [] = refl
  ids-replace (x ∷ xs) = ground (arith, ids-replace xs, eq_iff x.binding_id r.binding_id)

  -- The ids stay different.
  pub ids-upsert-Distinct : (xs : Records) → Distinct (ids xs) → Distinct (ids (upsert r xs).1)
  unfolding upsert
  ids-upsert-Distinct xs d = elim (Bool-cases (any (same_id r) xs)) [
    | inl there ↦ rw (there, ids-replace xs) d
    | inr new ↦
        rw (new, map-append, ids-replace xs)
          (Distinct-append_one (ids xs) r.binding_id d (sym (member-ids-any xs) ∙ new))
  ]

  unfoldable pub substitute : BindingRecord → BindingRecord
  substitute x = if x.binding_id == r.binding_id then r else x

  -- Each record with the id of `r` belongs to the attacker of `r`.
  abbrev pub SameAttacker : Records → Type 0
  SameAttacker xs =
      All (λ (x : BindingRecord). x.binding_id ≡ r.binding_id → x.attacker_key ≡ r.attacker_key) xs

  last_attacker-replace :
      (a : String) (found : Option BindingRecord) (xs : Records)
      → SameAttacker xs
      → last_of a (Option.map substitute found) (map by_attacker (replace (same_id r) r xs))
        ≡ Option.map substitute (last_of a found (map by_attacker xs))
  unfolding replace substitute
  last_attacker-replace a found [] h = refl
  last_attacker-replace a found (x ∷ xs) h = ground (
    arith,
    last_attacker-replace a found xs h.1,
    last_attacker-replace a (some x) xs h.1,
    h.0,
    eq_iff x.binding_id r.binding_id,
  )

keys-by_binding : (xs : Records) → keys (map by_binding xs) ≡ ids xs
keys-by_binding [] = refl
keys-by_binding (x ∷ xs) = ap (◌∷◌ x.binding_id) (keys-by_binding xs)

values-by_binding : (xs : Records) → values (map by_binding xs) ≡ xs
values-by_binding [] = refl
values-by_binding (x ∷ xs) = ap (◌∷◌ x) (values-by_binding xs)

-- With different ids, the dictionary by id is the list itself.
pub values-records_by_binding :
    (xs : Records) → Distinct (ids xs) → values (records_by_binding xs) ≡ xs
unfolding records_by_binding
values-records_by_binding xs d =
    rw (of_pairs-Distinct (map by_binding xs) (rw (keys-by_binding xs) d)) (values-by_binding xs)

pub get_by_attacker_lem :
    (a : String) (xs : Records)
    → Distinct (ids xs)
    → get_by_attacker a xs ≡ last_of a none (map by_attacker xs)
unfolding get_by_attacker
get_by_attacker_lem a xs d =
    rw (values-records_by_binding xs d) (get-of_pairs a (map by_attacker xs))

module _ (r : BindingRecord) where
  replace_absent : (xs : Records) → any (same_id r) xs ≡ false → replace (same_id r) r xs ≡ xs
  unfolding replace
  replace_absent [] h = refl
  replace_absent (x ∷ xs) h = ground (arith, replace_absent xs)

  -- The attacker's current binding after an `upsert`: the substituted one, or the one appended.
  pub get_by_attacker-upsert :
      (a : String) (xs : Records)
      → Distinct (ids xs)
      → SameAttacker r xs
      → get_by_attacker a (upsert r xs).1 ≡ (
          if any (same_id r) xs
          then Option.map (substitute r) (get_by_attacker a xs)
          else if r.attacker_key == a
          then some r
          else get_by_attacker a xs)
  unfolding upsert
  get_by_attacker-upsert a xs d same = elim (Bool-cases (any (same_id r) xs)) [
    | inl there ↦ rw there (
        get_by_attacker_lem a (replace (same_id r) r xs) (rw (ids-replace r xs) d)
        ∙ last_attacker-replace r a none xs same
        ∙ ap (Option.map (substitute r)) (sym (get_by_attacker_lem a xs d)))
    | inr new ↦
        let kept : Distinct (ids (xs ++ r ∷ [])) =
          rw (new, replace_absent xs new) at (ids-upsert-Distinct r xs d) in
        rw (new, replace_absent xs new, get_by_attacker_lem a xs d)
          (get_by_attacker_lem a (xs ++ r ∷ []) kept
            ∙ last-append (λ (x : BindingRecord). x.attacker_key) r a none xs)
  ]

pub member-false :
    (r : BindingRecord) (k : String) (xs : Records)
    → member k (ids xs) ≡ false
    → All (λ (x : BindingRecord). x.binding_id ≡ k → x ≡ r) xs
member-false r k [] h = tt
member-false r k (x ∷ xs) h =
    (λ p. absurd (ground (arith, eq_iff x.binding_id k)), member-false r k xs (ground arith))

pub In-member : (r : BindingRecord) (xs : Records) → In r xs → member r.binding_id (ids xs) ≡ true
In-member r [] h = absurd h
In-member r (x ∷ xs) (inl e) = ground (arith, eq_iff x.binding_id r.binding_id)
In-member r (x ∷ xs) (inr h) = ground (arith, In-member r xs h)

-- Of two records with one id there is one, where the ids are different.
pub In-unique :
    (r : BindingRecord) (xs : Records)
    → Distinct (ids xs)
    → In r xs
    → All (λ (x : BindingRecord). x.binding_id ≡ r.binding_id → x ≡ r) xs
In-unique r [] d h = tt
In-unique r (x ∷ xs) d (inl e) = (
  λ _. sym e,
  member-false r r.binding_id xs (ground (arith, d.0, ap (λ (y : BindingRecord). y.binding_id) e)),
)
In-unique r (x ∷ xs) d (inr h) = (
  λ p. absurd (ground (arith, In-member r xs h, eq_iff x.binding_id r.binding_id)),
  In-unique r xs d.1 h,
)
