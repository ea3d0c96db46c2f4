-- ===== src/Feedback/Outcomes.antt =====
-- What becomes of one pending reveal: `_pending_reveal_outcome`, `_pending_internal_http_touch_outcome` and
-- `_pending_reveal_expired` of scripts/runtime/adaptive_controller_loop.py.
use honeypot_fyp.Prelude.{
  ℕ, ◌+◌, String, Bool, true, false, not, ◌&&◌, ◌||◌, List, [], ◌∷◌, ◌++◌, Option, none, some, ltb,
  if◌then◌else◌, ◌==◌, string_eq,
}
use honeypot_fyp.Common.Clock.{parse_iso_datetime}
use honeypot_fyp.Common.Dict.{Dict, get}
use honeypot_fyp.Common.Json.{
  Json, null, bool, num, text, arr, obj, nil, end, cons, field, items, as_dict, as_text, dict_items,
}
use honeypot_fyp.Common.Numbers.{Numbers}
use honeypot_fyp.Common.Text.{is_blank}

-- the words of `status` that end a reveal
pub data Outcome : Type 0 where
  useful : Outcome
  shallow : Outcome
  ignored : Outcome

abbrev pub outcome_text : Outcome → String
outcome_text useful = "useful"
outcome_text shallow = "shallow"
outcome_text ignored = "ignored"

-- A call of `update_reveal_feedback_from_evidence`, with what it reads; a duration is in microseconds.
pub record Reading (F : Type 0) : Type 0 where
  pub from_iso : String → Option ℕ
  pub isoformat : ℕ → String
  pub now : ℕ
  pub feedback_window : ℕ
  pub evidence : List (Dict (Json F))
  pub internal_http_events : List (Dict (Json F))

-- `evidence_ts < pending_ts`, where both can be read
abbrev pub before_reveal : Option ℕ → Option ℕ → Bool
before_reveal (some evidence_ts) (some pending_ts) = ltb evidence_ts pending_ts
before_reveal _ _ = false

module _ {F : Type 0} where
  -- `value == word`
  abbrev pub is_word : String → Option (Json F) → Bool
  is_word word value = elim (as_text value) [ some s ↦ s == word | none ↦ false ]

  -- `evidence_records` of libs/common/runtime_records.py, without the key of the bucket in the records
  unfoldable pub flattened : Dict (Json F) → List (Dict (Json F))
  unfolding dict_items
  flattened [] = []
  flattened ((attacker_key, arr vs) ∷ rest) = dict_items (items vs) ++ flattened rest
  flattened (bucket ∷ rest) = flattened rest

  unfoldable pub evidence_records : Dict (Json F) → List (Dict (Json F))
  unfolding flattened get
  evidence_records payload = flattened (as_dict (get "records" payload))

module _ {F : Type 0} ⦃numbers : Numbers F⦄ where
  -- the truth value of `d.get(key)`
  abbrev pub truthy : Option (Json F) → Bool
  truthy none = false
  truthy (some null) = false
  truthy (some (bool b)) = b
  truthy (some (num x)) = not (numbers.num_eq x (numbers.of_int 0))
  truthy (some (text s)) = not (is_blank s)
  truthy (some (arr nil)) = false
  truthy (some (arr (cons v vs))) = true
  truthy (some (obj end)) = false
  truthy (some (obj (field k v fs))) = true

  module _ (reading : Reading F) where
    -- `parse_iso_datetime(item.get("ts"))`
    abbrev pub ts_of : Dict (Json F) → Option ℕ
    ts_of item = parse_iso_datetime reading.from_iso (get "ts" item)

    -- Whether a record of evidence is of the attacker, not before the reveal, and names the asset.
    unfoldable pub refers : String → String → Option ℕ → Dict (Json F) → Bool
    unfolding get parse_iso_datetime
    refers asset_id attacker_key pending_ts evidence =
        is_word attacker_key (get "attacker_key" evidence)
        && not (before_reveal (ts_of evidence) pending_ts)
        && is_word asset_id (get "asset_id" (as_dict (get "source_ref" evidence)))

    -- the loop over the evidence
    unfoldable pub evidence_outcome :
        String → String → Option ℕ → List (Dict (Json F)) → Option Outcome
    unfolding refers get
    evidence_outcome asset_id attacker_key pending_ts [] = none
    evidence_outcome asset_id attacker_key pending_ts (e ∷ rest) =
        let later = evidence_outcome asset_id attacker_key pending_ts rest in
        if refers asset_id attacker_key pending_ts e
        then some (if truthy (get "tech_id" e) || truthy (get "group" e) then useful else shallow)
        else later

    -- Whether an event of the asset gateway is a touch of the asset.
    unfoldable pub is_touch : String → String → Option ℕ → Dict (Json F) → Bool
    unfolding get parse_iso_datetime
    is_touch asset_id attacker_key pending_ts event =
        is_word attacker_key (get "attacker_key" event)
        && is_word asset_id (get "asset_id" event)
        && not (before_reveal (ts_of event) pending_ts)

    unfoldable pub touch_outcome :
        String → String → Option ℕ → List (Dict (Json F)) → Option Outcome
    unfolding is_touch
    touch_outcome asset_id attacker_key pending_ts [] = none
    touch_outcome asset_id attacker_key pending_ts (e ∷ rest) =
        let later = touch_outcome asset_id attacker_key pending_ts rest in
        if is_touch asset_id attacker_key pending_ts e then some shallow else later

    -- The outcome by the evidence, or else by the events, where the item names an asset and an attacker.
    unfoldable pub touched : Option String → Option String → Option ℕ → Option Outcome
    unfolding evidence_outcome touch_outcome
    touched (some asset_id) (some attacker_key) pending_ts =
        elim (evidence_outcome asset_id attacker_key pending_ts reading.evidence) [
          | some outcome ↦ some outcome
          | none ↦ touch_outcome asset_id attacker_key pending_ts reading.internal_http_events
        ]
    touched _ _ pending_ts = none

    -- `_pending_reveal_expired`
    unfoldable pub pending_reveal_expired : Option ℕ → Bool
    pending_reveal_expired none = false
    pending_reveal_expired (some ts) = ltb (ts + reading.feedback_window) reading.now

    -- What the call resolves an item to; none where the item is left.
    unfoldable pub outcome_of : Dict (Json F) → Option Outcome
    unfolding touched pending_reveal_expired get parse_iso_datetime
    outcome_of item =
        let found =
          touched (as_text (get "asset_id" item)) (as_text (get "attacker_key" item))
            (ts_of item) in
        if not (is_word "pending" (get "status" item)) then none else elim found [
          | some outcome ↦ some outcome
          | none ↦ if pending_reveal_expired (ts_of item) then some ignored else none
        ]
