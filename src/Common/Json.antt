-- ===== src/Common/Json.antt =====
-- JSON values as the program reads them, over the type of the numbers. `Fields` is a `dict` whose
-- keys are texts, and keeps the order of insertion.
use honeypot_fyp.Prelude.{
  String, Bool, List, [], ◌∷◌, Option, none, some, ◌≡◌, ap, refl, if◌then◌else◌,
}
use honeypot_fyp.Common.Dict.{Dict}
use honeypot_fyp.Common.Text.{is_blank, strip}

mutual
  pub data Json (F : Type 0) : Type 0 where
    null : Json F
    bool : Bool → Json F
    num : F → Json F
    text : String → Json F
    arr : Items F → Json F
    obj : Fields F → Json F

  pub data Items (F : Type 0) : Type 0 where
    nil : Items F
    cons : Json F → Items F → Items F

  pub data Fields (F : Type 0) : Type 0 where
    end : Fields F
    field : String → Json F → Fields F → Fields F

-- What the code takes from the machine: `Path(p).exists()`, and `str(v)` of a value that is no text.
pub record Host (F : Type 0) : Type 0 where
  pub path_exists : String → Bool
  pub str_of : Json F → String

module _ {F : Type 0} where
  -- `str(v)`
  unfoldable pub text_of : Host F → Json F → String
  text_of host (text s) = s
  text_of host v = host.str_of v

  abbrev pub items : Items F → List (Json F)
  items nil = []
  items (cons v vs) = v ∷ items vs

  abbrev pub fields : Fields F → Dict (Json F)
  fields end = []
  fields (field k v fs) = (k, v) ∷ fields fs

  abbrev pub items_of : List (Json F) → Items F
  items_of [] = nil
  items_of (v ∷ vs) = cons v (items_of vs)

  abbrev pub fields_of : Dict (Json F) → Fields F
  fields_of [] = end
  fields_of ((k, v) ∷ d) = field k v (fields_of d)

  pub items-items_of : (vs : List (Json F)) → items (items_of vs) ≡ vs
  items-items_of [] = refl
  items-items_of (v ∷ vs) = ap (◌∷◌ v) (items-items_of vs)

  pub fields-fields_of : (d : Dict (Json F)) → fields (fields_of d) ≡ d
  fields-fields_of [] = refl
  fields-fields_of ((k, v) ∷ d) = ap (◌∷◌ (k, v)) (fields-fields_of d)

  -- The value where it is a list, an object or a text; the empty one where it is anything else.
  abbrev pub as_list : Option (Json F) → List (Json F)
  as_list (some (arr vs)) = items vs
  as_list _ = []

  abbrev pub as_dict : Option (Json F) → Dict (Json F)
  as_dict (some (obj fs)) = fields fs
  as_dict _ = []

  -- The value where `isinstance(v, str)`.
  abbrev pub as_text : Option (Json F) → Option String
  as_text (some (text s)) = some s
  as_text _ = none

  -- `[item for item in values if isinstance(item, dict)]`
  unfoldable pub dict_items : List (Json F) → List (Dict (Json F))
  dict_items [] = []
  dict_items (obj fs ∷ vs) = fields fs ∷ dict_items vs
  dict_items (v ∷ vs) = dict_items vs

  -- `[item for item in values if isinstance(item, str)]`
  unfoldable pub text_items : List (Json F) → List String
  text_items [] = []
  text_items (text s ∷ vs) = s ∷ text_items vs
  text_items (v ∷ vs) = text_items vs

  -- `string_or_none` of libs/common/json_utils.py: the stripped text, if it is not empty.
  unfoldable pub string_or_none : Option (Json F) → Option String
  string_or_none (some (text s)) = if is_blank (strip s) then none else some (strip s)
  string_or_none _ = none
