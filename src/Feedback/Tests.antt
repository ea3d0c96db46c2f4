-- ===== src/Feedback/Tests.antt =====
-- The reveal feedback at two pending reveals, one of which is touched.
use honeypot_fyp.Prelude.{
  option_eq, ℕ, String, true, false, not, ◌&&◌, [], ◌∷◌, map, Option, none, some, any,
  if◌then◌else◌, ◌==◌, string_eq, ◌≡◌, ◌⊎◌, refl,
}
use honeypot_fyp.Common.Dict.{Dict, get}
use honeypot_fyp.Common.Json.{Json, text, arr, obj, items_of, fields_of, as_text, as_list}
use honeypot_fyp.Common.JsonStore.{Payload}
use honeypot_fyp.Common.Numbers.{ints}
use honeypot_fyp.Feedback.Outcomes.{useful, ignored, Reading, ts_of, outcome_of}
use honeypot_fyp.Feedback.Update.{unchanged, written, is_resolved, update_reveal_feedback}
use honeypot_fyp.Feedback.Tally.{HasCounts}
use honeypot_fyp.Feedback.Settled.{answer, tallied, update_reveal_feedback-counts}
use honeypot_fyp.Feedback.Waiting.{is_over, is_evidence, is_request, gives_up, outcome_of-gives_up}
use honeypot_fyp.Feedback.Once.{answer_once}

abbrev clock : String → Option ℕ
clock s = if s == "t1" then some 1000 else if s == "t2" then some 2000 else none

abbrev evidence : Dict (Json ℕ)
evidence =
    ("attacker_key", text "198.51.100.10")
    ∷ ("ts", text "t2")
    ∷ ("tech_id", text "T1005")
    ∷ ("source_ref", obj (fields_of (("asset_id", text "finance-share") ∷ [])))
    ∷ []

abbrev reading : Reading ℕ
reading = record {
  from_iso = clock;
  isoformat = λ t. "t3";
  now = 5000;
  feedback_window = 1500;
  evidence = evidence ∷ [];
  internal_http_events = [];
}

abbrev reveal : String → Dict (Json ℕ)
reveal asset_id =
    ("ts", text "t1")
    ∷ ("context_key", text "T1005")
    ∷ ("asset_group", text "finance")
    ∷ ("attacker_key", text "198.51.100.10")
    ∷ ("asset_id", text asset_id)
    ∷ ("status", text "pending")
    ∷ []

abbrev payload : Payload ℕ
payload =
    ("schema_version", text "v1")
    ∷ (
      "pending",
      arr (
          items_of (
            obj (fields_of (reveal "finance-share"))
            ∷ obj (fields_of (reveal "git-internal"))
            ∷ [])),
    )
    ∷ []

touched_reveal : outcome_of reading (reveal "finance-share") ≡ some useful
unfolding outcome_of
touched_reveal = refl

silent_reveal : outcome_of reading (reveal "git-internal") ≡ some ignored
unfolding outcome_of
silent_reveal = refl

abbrev nothing_yet : String → String → String → ℕ
nothing_yet c g word = 0

update_reveal_feedback-counts_example :
    let pending = as_list (get "pending" payload) in
    (payload' : Payload ℕ) × (update_reveal_feedback reading payload
      ≡ (if any (is_resolved reading) pending then written payload' else unchanged))
    × (as_list (get "pending" payload') ≡ map (answer reading) pending)
    × HasCounts (tallied reading nothing_yet pending) payload'
    × ((false ≡ true) ⊎ (get "schema_version" payload' ≡ get "schema_version" payload))
unfolding get
update_reveal_feedback-counts_example =
    update_reveal_feedback-counts reading nothing_yet payload "schema_version" (λ c g o. refl)

outcome_of-gives_up_example :
    let item = reveal "git-internal" in
    let ts = ts_of reading item in
    gives_up (outcome_of reading item) ≡ (
      as_text (get "status" item) == some "pending"
      && (not (any (is_evidence reading "git-internal" "198.51.100.10" ts) reading.evidence)
          && not (
              any
                (is_request reading "git-internal" "198.51.100.10" ts)
                reading.internal_http_events))
      && is_over reading ts)
unfolding get
outcome_of-gives_up_example =
    outcome_of-gives_up reading (reveal "git-internal") "git-internal" "198.51.100.10" refl refl

answer_once_example :
    let item = obj (fields_of (reveal "finance-share")) in
    (is_resolved reading (answer reading item) ≡ false)
    × (answer reading (answer reading item) ≡ answer reading item)
unfolding is_resolved
answer_once_example = answer_once reading reading (obj (fields_of (reveal "finance-share"))) refl
