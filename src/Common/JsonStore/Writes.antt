-- ===== src/Common/JsonStore/Writes.antt =====
-- What an `upsert_list_item` of libs/common/json_store.py leaves in the file.
use honeypot_fyp.Prelude.{
  String, true, false, List, some, filter, any, length, ◌+◌, if◌then◌else◌, ◌≡◌, arith, ◌==◌,
  string_eq, beq_refl,
}
use honeypot_fyp.Common.Dict.{get, put, get-put}
use honeypot_fyp.Common.Json.{Json, arr, items_of, items-items_of, as_list}
use honeypot_fyp.Common.JsonStore.{
  Payload, Store, read_unlocked, write_unlocked, locked_payload, has_text, upsert_items,
  upsert_body, upsert_list_item,
}
use honeypot_fyp.Common.JsonStore.Upsert.{
  find, keeps, find-upsert_items, others-upsert_items, length-upsert_items,
}

module _ {F : Type 0} where
  -- the list that the file holds under a key
  abbrev pub stored_list : String → Store F → List (Json F)
  stored_list k s = as_list (get k (read_unlocked s))

  pub stored_list-put :
      (k : String) (vs : List (Json F)) (payload : Payload F)
      → as_list (get k (put k (arr (items_of vs)) payload)) ≡ vs
  stored_list-put k vs payload =
      rw (get-put k k (arr (items_of vs)) payload, beq_refl k) (items-items_of vs)

  -- Where the item passes the test of its own upsert_list_item, the file then holds it as the first
  -- match of its list, has the other items of the list in their order, is longer by one exactly if
  -- no item matched and else as long as before, and has every other key as it was.
  pub upsert_list_item-stored :
      (k match_key match_value : String) (item : Json F) (s : Store F)
      → has_text match_key match_value item ≡ true
      → let matches = has_text match_key match_value in
        let after = upsert_list_item k match_key match_value item s in
        (find matches (stored_list k after) ≡ some item)
        × (filter (keeps matches) (stored_list k after) ≡ filter (keeps matches) (stored_list k s))
        × (length (stored_list k after) ≡ (
            if any matches (stored_list k s)
            then length (stored_list k s)
            else length (stored_list k s) + 1))
        × ((j : String) → (k == j) ≡ false → get j (read_unlocked after) ≡ get j (read_unlocked s))
  unfolding upsert_list_item upsert_body locked_payload read_unlocked write_unlocked
  upsert_list_item-stored k match_key match_value item s fits =
      let matches = has_text match_key match_value in
      let before = stored_list k s in
      rw (stored_list-put k (upsert_items matches item before) (read_unlocked s)) (
        find-upsert_items matches item fits before,
        others-upsert_items matches item fits before,
        length-upsert_items matches item fits before,
        λ j other. ground (
          arith,
          get-put k j (arr (items_of (upsert_items matches item before))) (read_unlocked s),
          other,
        ),
      )
