-- ===== src/Common/JsonStore/Buckets.antt =====
-- What `extend_list_in_object` and `set_object_item` of libs/common/json_store.py leave in the file: the
-- evidence and the profile of services/profiler/repository.py are kept so.
use honeypot_fyp.Prelude.{String, false, List, ◌++◌, some, ◌≡◌, refl, ◌==◌, string_eq, beq_refl}
use honeypot_fyp.Common.Dict.{Dict, get, put, get-put}
use honeypot_fyp.Common.Json.{
  Json, arr, obj, items_of, fields_of, items-items_of, fields-fields_of, as_list, as_dict,
}
use honeypot_fyp.Common.JsonStore.{
  Payload, Store, read_unlocked, write_unlocked, locked_payload, extend_body, extend_list_in_object,
  set_body, set_object_item,
}

module _ {F : Type 0} where
  -- the object that the file holds under a key
  abbrev pub stored_object : String → Store F → Dict (Json F)
  stored_object k s = as_dict (get k (read_unlocked s))

  stored_object-put :
      (k : String) (d : Dict (Json F)) (payload : Payload F)
      → as_dict (get k (put k (obj (fields_of d)) payload)) ≡ d
  stored_object-put k d payload =
      rw (get-put k k (obj (fields_of d)) payload, beq_refl k) (fields-fields_of d)

  list-put :
      (k : String) (vs : List (Json F)) (d : Dict (Json F))
      → as_list (get k (put k (arr (items_of vs)) d)) ≡ vs
  list-put k vs d = rw (get-put k k (arr (items_of vs)) d, beq_refl k) (items-items_of vs)

  -- After extend_list_in_object the bucket holds what it held and then the new items, every other
  -- bucket of the object what it held, and every other key of the document as well.
  pub extend_list_in_object-stored :
      (object_key bucket_key : String) (new : List (Json F)) (s : Store F)
      → let after = extend_list_in_object object_key bucket_key new s in
        (as_list (get bucket_key (stored_object object_key after))
          ≡ as_list (get bucket_key (stored_object object_key s)) ++ new)
        × ((b : String)
            → (bucket_key == b) ≡ false
            → get b (stored_object object_key after) ≡ get b (stored_object object_key s))
        × ((k : String)
            → (object_key == k) ≡ false
            → get k (read_unlocked after) ≡ get k (read_unlocked s))
  unfolding extend_list_in_object extend_body locked_payload read_unlocked write_unlocked
  extend_list_in_object-stored object_key bucket_key new s =
      let parent = stored_object object_key s in
      let bucket = as_list (get bucket_key parent) ++ new in
      let parent' = put bucket_key (arr (items_of bucket)) parent in
      rw (stored_object-put object_key parent' (read_unlocked s)) (
        list-put bucket_key bucket parent,
        λ b other. rw (get-put bucket_key b (arr (items_of bucket)) parent, other) refl,
        λ k other.
            rw (get-put object_key k (obj (fields_of parent')) (read_unlocked s), other) refl,
      )

  -- After set_object_item the object holds the item under its key, every other item as it was, and
  -- so does every other key of the document.
  pub set_object_item-stored :
      (object_key item_key : String) (item : Json F) (s : Store F)
      → let after = set_object_item object_key item_key item s in
        (get item_key (stored_object object_key after) ≡ some item)
        × ((i : String)
            → (item_key == i) ≡ false
            → get i (stored_object object_key after) ≡ get i (stored_object object_key s))
        × ((k : String)
            → (object_key == k) ≡ false
            → get k (read_unlocked after) ≡ get k (read_unlocked s))
  unfolding set_object_item set_body locked_payload read_unlocked write_unlocked
  set_object_item-stored object_key item_key item s =
      let parent = stored_object object_key s in
      let parent' = put item_key item parent in
      rw (stored_object-put object_key parent' (read_unlocked s)) (
        rw (get-put item_key item_key item parent, beq_refl item_key) refl,
        λ i other. rw (get-put item_key i item parent, other) refl,
        λ k other.
            rw (get-put object_key k (obj (fields_of parent')) (read_unlocked s), other) refl,
      )
