-- ===== src/Feedback/Update.antt =====
-- `update_reveal_feedback_from_evidence` of scripts/runtime/adaptive_controller_loop.py, from the payload of the
-- feedback file to the one that is written, and `FileRevealFeedbackRepository` of
-- services/controller/repository.py, which fills the file.
use honeypot_fyp.Prelude.{
  String, Bool, true, false, List, [], ◌∷◌, map, Option, none, some, any, is_empty, member,
  if◌then◌else◌, string_eq,
}
use honeypot_fyp.Common.Dict.{Dict, get, put}
use honeypot_fyp.Common.Json.{Json, text, arr, obj, items_of, fields, fields_of, as_list, as_text}
use honeypot_fyp.Common.JsonStore.{Payload, Store, append_to_list}
use honeypot_fyp.Common.JsonStore.Nested.{mutable_nested_dict, increment, increment_nested_int}
use honeypot_fyp.Common.Numbers.{Numbers}
use honeypot_fyp.Feedback.Outcomes.{Outcome, outcome_text, Reading, outcome_of}

infixl 5 ◌>>=◌
abbrev ◌>>=◌ {ℓ κ} : {A : Type ℓ} {B : Type κ} → Option A → (A → Option B) → Option B
none >>= f = none
some a >>= f = f a

abbrev pub group_path : String → String → List String
group_path context_key asset_group = "contexts" ∷ context_key ∷ "asset_groups" ∷ asset_group ∷ []

-- What a call does to the file; an int that cannot be read raises before the file is written.
pub data Written (F : Type 0) : Type 0 where
  unchanged : Written F
  written : Payload F → Written F
  raised : Written F

module _ {F : Type 0} ⦃numbers : Numbers F⦄ where
  -- the counter of an outcome, where the item names its context and its group
  abbrev pub count_in : Outcome → Option String → Option String → Payload F → Option (Payload F)
  count_in outcome (some context_key) (some asset_group) payload =
      mutable_nested_dict (group_path context_key asset_group) (increment (outcome_text outcome))
        payload
  count_in outcome _ _ payload = some payload

  unfoldable pub count_outcome : Outcome → Dict (Json F) → Payload F → Option (Payload F)
  unfolding get mutable_nested_dict increment
  count_outcome outcome item payload =
      count_in outcome (as_text (get "context_key" item)) (as_text (get "asset_group" item)) payload

  module _ (reading : Reading F) where
    unfoldable pub settled : Outcome → Dict (Json F) → Dict (Json F)
    unfolding put
    settled outcome item =
        put "resolved_at" (text (reading.isoformat reading.now))
          (put "status" (text (outcome_text outcome)) item)

    -- one round of the loop
    unfoldable pub resolve_item : Json F → Payload F → Option (Json F × Payload F)
    unfolding outcome_of count_outcome settled
    resolve_item (obj fs) payload = elim (outcome_of reading (fields fs)) [
      | some outcome ↦ do
        payload' ← count_outcome outcome (fields fs) payload
        some (obj (fields_of (settled outcome (fields fs))), payload')
      | none ↦ some (obj fs, payload)
    ]
    resolve_item item payload = some (item, payload)

    unfoldable pub resolve_all : List (Json F) → Payload F → Option (List (Json F) × Payload F)
    unfolding resolve_item
    resolve_all [] payload = some ([], payload)
    resolve_all (item ∷ rest) payload = do
      (item', payload') ← resolve_item item payload
      (rest', payload'') ← resolve_all rest payload'
      some (item' ∷ rest', payload'')

    -- `changed`
    unfoldable pub is_resolved : Json F → Bool
    unfolding outcome_of
    is_resolved (obj fs) = elim (outcome_of reading (fields fs)) [
      | some outcome ↦ true
      | none ↦ false
    ]
    is_resolved _ = false

    unfoldable pub update_reveal_feedback : Payload F → Written F
    unfolding resolve_all is_resolved get put
    update_reveal_feedback payload =
        let pending = as_list (get "pending" payload) in
        elim (resolve_all pending payload) [
          | none ↦ raised
          | some (pending', payload') ↦
              if any is_resolved pending
              then written (put "pending" (arr (items_of pending')) payload')
              else unchanged
        ]

  -- `record_reveal`, where `ts` is the time of the call as a text
  unfoldable pub record_reveal :
      String
      → String
      → String
      → String
      → String
      → String
      → List String
      → List String
      → Store F
      → Option (Store F)
  unfolding increment_nested_int append_to_list
  record_reveal ts context_key asset_group binding_id attacker_key asset_id available revealed s =
      do
        s' ← increment_nested_int (group_path context_key asset_group) "revealed" s
        some (
            append_to_list "pending"
              (obj (
                fields_of (
                  ("ts", text ts)
                  ∷ ("context_key", text context_key)
                  ∷ ("asset_group", text asset_group)
                  ∷ ("binding_id", text binding_id)
                  ∷ ("attacker_key", text attacker_key)
                  ∷ ("asset_id", text asset_id)
                  ∷ ("available_assets", arr (items_of (map text available)))
                  ∷ (
                    "revealed_assets",
                    arr (
                        items_of
                          (map text (if is_empty revealed then asset_id ∷ [] else revealed))),
                  )
                  ∷ ("status", text "pending")
                  ∷ [])))
              s')

  -- `record_outcome`
  unfoldable pub record_outcome : String → String → String → Store F → Option (Store F)
  unfolding increment_nested_int
  record_outcome context_key asset_group outcome s =
      if member outcome ("useful" ∷ "shallow" ∷ "ignored" ∷ [])
      then increment_nested_int (group_path context_key asset_group) outcome s
      else some s
