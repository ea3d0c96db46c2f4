-- ===== src/Common/JsonStore.antt =====
-- libs/common/json_store.py: a JSON document on disk, changed by read-modify-write cycles under a
-- lock. The document is an object, as every repository's default is; `none` is a missing file. What
-- `json.load` reads back is what `json.dump` wrote, up to the order of an object's keys, which no
-- operation here depends on.
pub mod Upsert
pub mod Keyed
pub mod Writes
pub mod Buckets
pub mod Cycles
pub mod Replace
pub mod Nested
use honeypot_fyp.Prelude.{
  String, Bool, true, false, List, [], ◌∷◌, ◌++◌, Option, none, some, any, if◌then◌else◌, ◌==◌,
  string_eq,
}
use honeypot_fyp.Common.Dict.{Dict, get, put}
use honeypot_fyp.Common.Json.{Json, text, arr, obj, fields, items_of, fields_of, as_list, as_dict}

module _ {ℓ} {A : Type ℓ} where
  -- The loop of `upsert_list_item`: every match is replaced.
  unfoldable pub replace : (A → Bool) → A → List A → List A
  replace matches item [] = []
  replace matches item (existing ∷ rest) =
      (if matches existing then item else existing) ∷ replace matches item rest

  -- `if not replaced: output.append(item)`
  unfoldable pub upsert_items : (A → Bool) → A → List A → List A
  unfolding replace
  upsert_items matches item existing =
      if any matches existing
      then replace matches item existing
      else replace matches item existing ++ item ∷ []

abbrev pub Payload : Type 0 → Type 0
Payload F = Dict (Json F)

pub record Store (F : Type 0) : Type 0 where
  pub content : Option (Payload F)
  pub default_data : Payload F

module _ {F : Type 0} where
  -- `_read_unlocked`
  unfoldable pub read_unlocked : Store F → Payload F
  read_unlocked s = elim s.content [ some payload ↦ payload | none ↦ s.default_data ]

  -- `_write_unlocked`
  unfoldable pub write_unlocked : Payload F → Store F → Store F
  write_unlocked payload s = record s { content = some payload }

  -- `_ensure_exists`, as one step: the code looks for the file before it takes the lock, so another
  -- process can create the file between the look and the write.
  unfoldable pub ensure_exists : Store F → Store F
  unfolding write_unlocked
  ensure_exists s = elim s.content [ some payload ↦ s | none ↦ write_unlocked s.default_data s ]

  -- `read`: the payload, and the file that may have been created
  unfoldable pub read : Store F → Payload F × Store F
  unfolding ensure_exists read_unlocked
  read s = (read_unlocked (ensure_exists s), ensure_exists s)

  -- `update`: one read-modify-write cycle. The lock makes it one step.
  unfoldable pub update : {R : Type 0} → (Payload F → R × Payload F) → Store F → R × Store F
  unfolding read_unlocked write_unlocked
  update mutator s =
      let (result, payload) = mutator (read_unlocked s) in (result, write_unlocked payload s)

  -- `with self._locked_payload() as payload`: a cycle whose body changes the payload in place
  unfoldable pub locked_payload : (Payload F → Payload F) → Store F → Store F
  unfolding read_unlocked write_unlocked
  locked_payload body s = write_unlocked (body (read_unlocked s)) s

  -- `append_to_list`
  append_body : String → Json F → Payload F → Payload F
  append_body list_key item payload =
      put list_key (arr (items_of (as_list (get list_key payload) ++ item ∷ []))) payload

  unfoldable pub append_to_list : String → Json F → Store F → Store F
  unfolding append_body locked_payload
  append_to_list list_key item = locked_payload (append_body list_key item)

  -- `extend_list_in_object`
  extend_body : String → String → List (Json F) → Payload F → Payload F
  extend_body object_key bucket_key new payload =
      let parent = as_dict (get object_key payload) in
      let bucket = as_list (get bucket_key parent) ++ new in
      put object_key (obj (fields_of (put bucket_key (arr (items_of bucket)) parent))) payload

  unfoldable pub extend_list_in_object : String → String → List (Json F) → Store F → Store F
  unfolding extend_body locked_payload
  extend_list_in_object object_key bucket_key new =
      locked_payload (extend_body object_key bucket_key new)

  -- `set_object_item`
  set_body : String → String → Json F → Payload F → Payload F
  set_body object_key item_key item payload =
      put object_key (obj (fields_of (put item_key item (as_dict (get object_key payload)))))
        payload

  unfoldable pub set_object_item : String → String → Json F → Store F → Store F
  unfolding set_body locked_payload
  set_object_item object_key item_key item = locked_payload (set_body object_key item_key item)

  -- `isinstance(existing, dict) and existing.get(match_key) == match_value`, at a text value
  unfoldable pub has_text : String → String → Json F → Bool
  has_text match_key match_value (obj fs) = elim (get match_key (fields fs)) [
    | some (text s) ↦ s == match_value
    | _ ↦ false
  ]
  has_text match_key match_value _ = false

  -- `upsert_list_item`
  upsert_body : String → String → String → Json F → Payload F → Payload F
  upsert_body list_key match_key match_value item payload =
      put list_key
        (arr (
          items_of
            (upsert_items (has_text match_key match_value) item (as_list (get list_key payload)))))
        payload

  unfoldable pub upsert_list_item : String → String → String → Json F → Store F → Store F
  unfolding upsert_body locked_payload
  upsert_list_item list_key match_key match_value item =
      locked_payload (upsert_body list_key match_key match_value item)
