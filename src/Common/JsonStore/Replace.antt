-- ===== src/Common/JsonStore/Replace.antt =====
-- `replace_list_items` of libs/common/json_store.py: items are told apart by a compound key. A list or an
-- object in a key cannot be hashed, and raises; nothing is written then.
use honeypot_fyp.Prelude.{
  String, Bool, true, false, ◌&&◌, List, [], ◌∷◌, ◌++◌, Option, none, some, any, if◌then◌else◌,
  ◌==◌, string_eq, bool_eq,
}
use honeypot_fyp.Common.Dict.{Dict, get, put}
use honeypot_fyp.Common.Json.{
  Json, null, bool, num, text, arr, obj, fields, items_of, fields_of, as_list,
}
use honeypot_fyp.Common.Numbers.{Numbers}
use honeypot_fyp.Common.JsonStore.{Payload, Store, read_unlocked, write_unlocked}

-- A value that can stand in a key: None is also what `get` gives for a missing field.
pub data Atom (F : Type 0) : Type 0 where
  nothing : Atom F
  flag : Bool → Atom F
  number : F → Atom F
  word : String → Atom F

infixl 5 ◌>>=◌
abbrev pub ◌>>=◌ {ℓ κ} : {A : Type ℓ} {B : Type κ} → Option A → (A → Option B) → Option B
none >>= f = none
some a >>= f = f a

module _ {F : Type 0} where
  abbrev pub objects : List (Dict (Json F)) → List (Json F)
  objects [] = []
  objects (d ∷ rest) = obj (fields_of d) ∷ objects rest

  unfoldable pub atom : Option (Json F) → Option (Atom F)
  atom none = some nothing
  atom (some null) = some nothing
  atom (some (bool b)) = some (flag b)
  atom (some (num x)) = some (number x)
  atom (some (text s)) = some (word s)
  atom _ = none

  -- `_compound_key`
  unfoldable pub compound_key : List String → Dict (Json F) → Option (List (Atom F))
  unfolding atom get
  compound_key [] item = some []
  compound_key (field ∷ rest) item = do
    a ← atom (get field item)
    key ← compound_key rest item
    some (a ∷ key)

module _ {F : Type 0} ⦃numbers : Numbers F⦄ where
  -- `==`, where True is 1 and False is 0
  unfoldable pub atom_eq : Atom F → Atom F → Bool
  atom_eq nothing nothing = true
  atom_eq (flag a) (flag b) = a == b
  atom_eq (flag a) (number x) = numbers.num_eq (numbers.of_int (if a then 1 else 0)) x
  atom_eq (number x) (flag b) = numbers.num_eq x (numbers.of_int (if b then 1 else 0))
  atom_eq (number x) (number y) = numbers.num_eq x y
  atom_eq (word s) (word t) = s == t
  atom_eq _ _ = false

  unfoldable pub key_eq : List (Atom F) → List (Atom F) → Bool
  unfolding atom_eq
  key_eq [] [] = true
  key_eq (a ∷ as') (b ∷ bs) = atom_eq a b && key_eq as' bs
  key_eq _ _ = false

  -- `replacement_keys`
  unfoldable pub keys_of : List String → List (Dict (Json F)) → Option (List (List (Atom F)))
  unfolding compound_key
  keys_of key_fields [] = some []
  keys_of key_fields (item ∷ rest) = do
    key ← compound_key key_fields item
    keys ← keys_of key_fields rest
    some (key ∷ keys)

  -- the comprehension `preserved`
  unfoldable pub preserved :
      List String → List (List (Atom F)) → List (Json F) → Option (List (Json F))
  unfolding compound_key key_eq
  preserved key_fields keys [] = some []
  preserved key_fields keys (obj fs ∷ rest) = do
    key ← compound_key key_fields (fields fs)
    kept ← preserved key_fields keys rest
    some (if any (key_eq key) keys then kept else obj fs ∷ kept)
  preserved key_fields keys (item ∷ rest) = do
    kept ← preserved key_fields keys rest
    some (item ∷ kept)

  -- the payload that is written
  unfoldable pub replaced :
      String → List (Dict (Json F)) → List String → Payload F → Option (Payload F)
  unfolding keys_of preserved
  replaced list_key new_items key_fields payload = do
    keys ← keys_of key_fields new_items
    kept ← preserved key_fields keys (as_list (get list_key payload))
    some (put list_key (arr (items_of (kept ++ objects new_items))) payload)

  unfoldable pub replace_list_items :
      String → List (Dict (Json F)) → List String → Store F → Option (Store F)
  unfolding replaced read_unlocked write_unlocked
  replace_list_items list_key new_items key_fields s = do
    payload ← replaced list_key new_items key_fields (read_unlocked s)
    some (write_unlocked payload s)
