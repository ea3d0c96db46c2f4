-- ===== src/Feedback/Settled.antt =====
-- What a call of `update_reveal_feedback_from_evidence` of scripts/runtime/adaptive_controller_loop.py makes of the
-- pending reveals and of the counters.
use honeypot_fyp.Prelude.{
  ℕ, ◌+◌, String, Bool, true, false, ◌&&◌, ◌||◌, List, [], ◌∷◌, map, none, some, any, if◌then◌else◌,
  ◌==◌, string_eq, option_eq, ◌≡◌, ◌⊎◌, inl, inr, refl, ap, ◌∙◌, arith, Bool-cases, Option-cases,
}
use honeypot_fyp.Common.Dict.{get, put, get-put}
use honeypot_fyp.Common.Json.{
  Json, arr, obj, fields, fields_of, items_of, items-items_of, as_list, as_text,
}
use honeypot_fyp.Common.JsonStore.{Payload}
use honeypot_fyp.Common.Numbers.{Numbers}
use honeypot_fyp.Feedback.Outcomes.{outcome_text, Reading, outcome_of}
use honeypot_fyp.Feedback.Update.{
  unchanged, written, count_outcome, settled, resolve_item, resolve_all, is_resolved,
  update_reveal_feedback,
}
use honeypot_fyp.Feedback.Tally.{HasCounts, one_if, count_in-HasCounts}

module _ {F : Type 0} ⦃numbers : Numbers F⦄ (reading : Reading F) where
  -- what the call makes of an item
  abbrev pub answer : Json F → Json F
  answer (obj fs) = elim (outcome_of reading (fields fs)) [
    | some outcome ↦ obj (fields_of (settled reading outcome (fields fs)))
    | none ↦ obj fs
  ]
  answer item = item

  -- Whether an item is resolved with an outcome, and names a context and a group.
  abbrev pub counts_for : String → String → String → Json F → Bool
  counts_for c g word (obj fs) =
      elim (outcome_of reading (fields fs)) [ some o ↦ outcome_text o == word | none ↦ false ]
      && as_text (get "context_key" (fields fs)) == some c
      && as_text (get "asset_group" (fields fs)) == some g
  counts_for c g word _ = false

  abbrev pub tally : String → String → String → List (Json F) → ℕ
  tally c g word [] = 0
  tally c g word (item ∷ rest) = one_if (counts_for c g word item) + tally c g word rest

  -- the counts with the items that are resolved
  abbrev pub tallied : (String → String → String → ℕ) → List (Json F) → String → String → String → ℕ
  tallied n items c g word = n c g word + tally c g word items

  -- Only the counters change.
  abbrev IsKept : Payload F → Payload F → Type 0
  IsKept payload payload' =
      (k : String) → ("contexts" == k) ≡ false → get k payload' ≡ get k payload

  resolve_item-HasCounts :
      (n : String → String → String → ℕ) (item : Json F) (payload : Payload F)
      → HasCounts n payload
      → (payload' : Payload F) × (resolve_item reading item payload ≡ some (answer item, payload'))
        × HasCounts (λ c g w. n c g w + one_if (counts_for c g w item)) payload'
        × IsKept payload payload'
  unfolding resolve_item count_outcome
  resolve_item-HasCounts n (obj fs) payload h =
      elim (Option-cases (outcome_of reading (fields fs))) [
        | inl left ↦ (
          payload,
          rw (left, resolve_item, answer) refl,
          rw left (λ c g o. h c g o ∙ ap some (omega arith)),
          λ k e. refl,
        )
        | inr (o, found) ↦
            let (payload', made, counts, kept) =
              count_in-HasCounts n o (as_text (get "context_key" (fields fs)))
                (as_text (get "asset_group" (fields fs))) payload h in
            (payload', rw (found, resolve_item, answer, made) refl, rw found counts, kept)
      ]
  resolve_item-HasCounts n _ payload h =
      (payload, refl, λ c g o. h c g o ∙ ap some (omega arith), λ k e. refl)

  resolve_all-HasCounts :
      (n : String → String → String → ℕ) (items : List (Json F)) (payload : Payload F)
      → HasCounts n payload
      → (payload' : Payload F) × (resolve_all reading items payload
          ≡ some (map answer items, payload'))
        × HasCounts (tallied n items) payload'
        × IsKept payload payload'
  unfolding resolve_all
  resolve_all-HasCounts n [] payload h =
      (payload, refl, λ c g o. h c g o ∙ ap some (omega arith), λ k e. refl)
  resolve_all-HasCounts n (item ∷ rest) payload h =
      let (payload', made, counts, kept) = resolve_item-HasCounts n item payload h in
      let (payload'', made', counts', kept') =
        resolve_all-HasCounts (λ c g w. n c g w + one_if (counts_for c g w item)) rest payload'
          counts in
      (
        payload'',
        rw (made, made') refl,
        λ c g o. counts' c g o ∙ ap some (omega arith),
        λ k other. kept' k other ∙ kept k other,
      )

  -- Where every counter of the feedback file can be read, an update does not raise: it writes the
  -- file exactly if some pending reveal is resolved. What it writes has every item of the list, in
  -- order, as its outcome leaves it; the counter of each context, group and outcome grows by
  -- exactly the number of items that are resolved so there; and any key other than contexts and
  -- pending is as it was.
  pub update_reveal_feedback-counts :
      (n : String → String → String → ℕ) (payload : Payload F) (k : String)
      → HasCounts n payload
      → let pending = as_list (get "pending" payload) in
        (payload' : Payload F) × (update_reveal_feedback reading payload
          ≡ (if any (is_resolved reading) pending then written payload' else unchanged))
        × (as_list (get "pending" payload') ≡ map answer pending)
        × HasCounts (tallied n pending) payload'
        × ((("contexts" == k || "pending" == k) ≡ true) ⊎ (get k payload' ≡ get k payload))
  unfolding update_reveal_feedback
  update_reveal_feedback-counts n payload k h =
      let pending = as_list (get "pending" payload) in
      let (payload', made, counts, kept) = resolve_all-HasCounts n pending payload h in
      let now = arr (items_of (map answer pending)) in
      (
        put "pending" now payload',
        rw (made, update_reveal_feedback) refl,
        rw (get-put "pending" "pending" now payload') (items-items_of (map answer pending)),
        λ c g o. rw (get-put "pending" "contexts" now payload') (counts c g o),
        elim (Bool-cases ("contexts" == k || "pending" == k)) [
          | inl named ↦ inl named
          | inr other ↦
              let beside : ("contexts" == k) ≡ false = ground arith in
              let elsewhere : ("pending" == k) ≡ false = ground arith in
              inr (rw (get-put "pending" k now payload', elsewhere) (kept k beside))
        ],
      )
