-- ===== src/Feedback/Once.antt =====
-- That a reveal is resolved once by scripts/runtime/adaptive_controller_loop.py.
use honeypot_fyp.Prelude.{
  string_eq, option_eq, true, false, none, some, ◌≡◌, inl, inr, refl, ap, ◌∙◌, Option-cases,
}
use honeypot_fyp.Common.Dict.{Dict, get, put, get-put}
use honeypot_fyp.Common.Json.{text, obj, Json, fields, fields_of, fields-fields_of}
use honeypot_fyp.Common.Numbers.{Numbers}
use honeypot_fyp.Feedback.Outcomes.{
  Outcome, useful, shallow, ignored, outcome_text, Reading, is_word, outcome_of,
}
use honeypot_fyp.Feedback.Update.{settled, is_resolved}
use honeypot_fyp.Feedback.Settled.{answer}

module _ {F : Type 0} ⦃numbers : Numbers F⦄ where
  status-settled :
      (reading : Reading F) (o : Outcome) (item : Dict (Json F))
      → get "status" (settled reading o item) ≡ some (text (outcome_text o))
  unfolding settled
  status-settled reading o item =
      rw
        (get-put "resolved_at" "status" (text (reading.isoformat reading.now))
          (put "status" (text (outcome_text o)) item))
        (rw (get-put "status" "status" (text (outcome_text o)) item) refl)

  is_word-settled :
      (reading : Reading F) (o : Outcome) (item : Dict (Json F))
      → is_word "pending" (get "status" (settled reading o item)) ≡ false
  is_word-settled reading useful item = rw (status-settled reading useful item) refl
  is_word-settled reading shallow item = rw (status-settled reading shallow item) refl
  is_word-settled reading ignored item = rw (status-settled reading ignored item) refl

  not_pending :
      (later : Reading F) (item : Dict (Json F))
      → is_word "pending" (get "status" item) ≡ false
      → outcome_of later item ≡ none
  unfolding outcome_of
  not_pending later item h = rw (h, outcome_of) refl

  left_alone :
      (later : Reading F) (item : Dict (Json F))
      → outcome_of later item ≡ none
      → (is_resolved later (obj (fields_of item)) ≡ false)
        × (answer later (obj (fields_of item)) ≡ obj (fields_of item))
  unfolding is_resolved
  left_alone later item h =
      let there : outcome_of later (fields (fields_of item)) ≡ none =
        ap (outcome_of later) (fields-fields_of item) ∙ h in
      (rw (there, is_resolved) refl, rw (there, answer) refl)

  -- A reveal that one update resolves is resolved once: any later update, at any time and with any
  -- evidence, neither resolves it again nor changes it.
  pub answer_once :
      (reading later : Reading F) (item : Json F)
      → is_resolved reading item ≡ true
      → (is_resolved later (answer reading item) ≡ false)
        × (answer later (answer reading item) ≡ answer reading item)
  unfolding is_resolved
  answer_once reading later (obj fs) h = elim (Option-cases (outcome_of reading (fields fs))) [
    | inl nothing ↦ cc (rw (nothing, is_resolved) at h)
    | inr (o, found) ↦
        let became : answer reading (obj fs) ≡ obj (fields_of (settled reading o (fields fs))) =
          rw (found, answer) refl in
        rw became (
          left_alone later (settled reading o (fields fs)) (
            not_pending later (settled reading o (fields fs))
              (is_word-settled reading o (fields fs))))
  ]
  answer_once reading later _ h = cc
