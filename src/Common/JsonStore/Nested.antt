-- ===== src/Common/JsonStore/Nested.antt =====
-- `mutable_nested_dict` of libs/common/json_utils.py and `increment_nested_int` of libs/common/json_store.py. The code
-- changes the innermost dict in place; here the change is a function, which may raise (none).
use mathlib.Core.Option.{some-injective}
use honeypot_fyp.Prelude.{
  Option-cases, suc, ◌+◌, String, false, List, [], ◌∷◌, Option, none, some, length, ◌≡◌, refl, ◌==◌,
  string_eq, list_eq, if◌then◌else◌, arith, Bool-cases, inl, inr, eq_iff,
}
use honeypot_fyp.Common.Dict.{Dict, get, put, get-put}
use honeypot_fyp.Common.Json.{Json, num, obj, fields_of, fields-fields_of, as_dict}
use honeypot_fyp.Common.JsonStore.{Store, read_unlocked, write_unlocked}
use honeypot_fyp.Common.Numbers.{Numbers, int_or_zero}

infixl 5 ◌>>=◌
abbrev ◌>>=◌ : {A B : Type 0} → Option A → (A → Option B) → Option B
none >>= f = none
some a >>= f = f a

module _ {F : Type 0} where
  -- Each level is made or repaired, and the innermost dict changed.
  unfoldable pub mutable_nested_dict :
      List String
      → (Dict (Json F) → Option (Dict (Json F)))
      → Dict (Json F)
      → Option (Dict (Json F))
  unfolding get put
  mutable_nested_dict [] change current = change current
  mutable_nested_dict (key ∷ keys) change current = do
    inner ← mutable_nested_dict keys change (as_dict (get key current))
    some (put key (obj (fields_of inner)) current)

  -- The dict at a path, empty where there is none.
  abbrev pub nested_at : List String → Dict (Json F) → Dict (Json F)
  nested_at [] d = d
  nested_at (key ∷ keys) d = nested_at keys (as_dict (get key d))

  -- what stands below a key, after a write to one
  below-put :
      (key j : String) (inner d : Dict (Json F))
      → as_dict (get j (put key (obj (fields_of inner)) d))
        ≡ (if key == j then inner else as_dict (get j d))
  below-put key j inner d = elim (Bool-cases (key == j)) [
    | inl same ↦ rw (get-put key j (obj (fields_of inner)) d, same) (fields-fields_of inner)
    | inr other ↦ rw (get-put key j (obj (fields_of inner)) d, other) refl
  ]

  -- After a change the dict at its path is the changed one, and at any other path of the length the
  -- one that was there.
  pub nested_at-mutable_nested_dict :
      (change : Dict (Json F) → Option (Dict (Json F))) (inner : Dict (Json F)) (keys : List String)
      (d : Dict (Json F))
      → change (nested_at keys d) ≡ some inner
      → (d' : Dict (Json F)) × (mutable_nested_dict keys change d ≡ some d')
        × ((path : List String)
            → length path ≡ length keys
            → nested_at path d' ≡ (if keys == path then inner else nested_at path d))
  unfolding mutable_nested_dict
  nested_at-mutable_nested_dict change inner [] d h = (inner, h, λ path. at_top path)
    where
      at_top :
          (path : List String)
          → length path ≡ 0
          → nested_at path inner ≡ (if [] == path then inner else nested_at path d)
      at_top [] e = refl
      at_top (j ∷ path) e = absurd (omega (arith, e))
  nested_at-mutable_nested_dict change inner (key ∷ keys) d h =
      let (inner', made, at) =
        nested_at-mutable_nested_dict change inner keys (as_dict (get key d)) h in
      (put key (obj (fields_of inner')) d, rw made refl, λ path. within inner' at path)
    where
      within :
          (inner' : Dict (Json F))
          → ((path : List String)
              → length path ≡ length keys
              → nested_at path inner'
                ≡ (if keys == path then inner else nested_at path (as_dict (get key d))))
          → (path : List String) → length path ≡ suc (length keys)
          → nested_at path (put key (obj (fields_of inner')) d)
            ≡ (if key ∷ keys == path then inner else nested_at path d)
      within inner' at [] e = absurd (omega (arith, e))
      within inner' at (j ∷ path) e = elim (Bool-cases (key == j)) [
        | inl same ↦
            rw (below-put key j inner' d, same, ← (eq_iff key j).0 same)
              (at path (omega (arith, e)))
        | inr other ↦ rw (below-put key j inner' d, other) refl
      ]

  -- The keys beside the path are left.
  pub get-mutable_nested_dict :
      (change : Dict (Json F) → Option (Dict (Json F))) (key : String) (keys : List String)
      (d d' : Dict (Json F))
      → mutable_nested_dict (key ∷ keys) change d ≡ some d'
      → (k : String) → (key == k) ≡ false
      → get k d' ≡ get k d
  unfolding mutable_nested_dict
  get-mutable_nested_dict change key keys d d' h k other =
      elim (Option-cases (mutable_nested_dict keys change (as_dict (get key d)))) [
        | inl nothing ↦ cc (rw nothing at h)
        | inr (inner, made) ↦
            let is : put key (obj (fields_of inner)) d ≡ d' = some-injective _ _ (rw made at h) in
            rw (← is, get-put key k (obj (fields_of inner)) d, other) refl
      ]

module _ {F : Type 0} ⦃numbers : Numbers F⦄ where
  -- `group[counter_key] = int(group.get(counter_key, 0) or 0) + 1`
  unfoldable pub increment : String → Dict (Json F) → Option (Dict (Json F))
  unfolding get put
  increment counter_key group = do
    n ← int_or_zero (get counter_key group)
    some (put counter_key (num (numbers.of_int (n + 1))) group)

  -- `increment_nested_int`
  unfoldable pub increment_nested_int : List String → String → Store F → Option (Store F)
  unfolding mutable_nested_dict increment read_unlocked write_unlocked
  increment_nested_int keys counter_key s = do
    payload ← mutable_nested_dict keys (increment counter_key) (read_unlocked s)
    some (write_unlocked payload s)
