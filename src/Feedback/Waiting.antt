-- ===== src/Feedback/Waiting.antt =====
-- When scripts/runtime/adaptive_controller_loop.py gives a reveal up.
use honeypot_fyp.Prelude.{
  ◌+◌, ◌==◌, string_eq, option_eq, ℕ, String, Bool, true, false, not, ◌&&◌, ◌||◌, List, [], ◌∷◌,
  leb, Option, none, some, any, if◌then◌else◌, ◌≡◌, ◌⊎◌, inl, inr, refl, ap, ◌∙◌, arith, Bool-cases,
}
use honeypot_fyp.Common.Dict.{Dict, get}
use honeypot_fyp.Common.Json.{null, bool, num, text, arr, obj, as_dict, Json, as_text}
use honeypot_fyp.Common.Numbers.{Numbers}
use honeypot_fyp.Feedback.Outcomes.{
  before_reveal, Outcome, useful, shallow, ignored, Reading, is_word, truthy, ts_of, refers,
  evidence_outcome, is_touch, touch_outcome, touched, pending_reveal_expired, outcome_of,
}

abbrev pub gives_up : Option Outcome → Bool
gives_up (some ignored) = true
gives_up _ = false

abbrev is_left : Option Outcome → Bool
is_left none = true
is_left (some o) = false

verdict : (b : Bool) → gives_up (some (if b then useful else shallow)) ≡ false
verdict true = refl
verdict false = refl

-- the tests of `outcome_of` in order, at what was found
conclusion :
    (pending expired : Bool) (found : Option Outcome)
    → gives_up found ≡ false
    → gives_up (
        if not pending
        then none
        else elim found [ some o ↦ some o | none ↦ if expired then some ignored else none ])
      ≡ (pending && is_left found && expired)
conclusion true true none h = refl
conclusion true false none h = refl
conclusion true expired (some o) h = h
conclusion false expired found h = refl

-- A time that is not before the reveal, as far as both can be read.
abbrev pub is_since : Option ℕ → Option ℕ → Bool
is_since (some ts) (some revealed) = leb revealed ts
is_since none revealed = true
is_since ts none = true

before_reveal-is_since :
    (ts revealed : Option ℕ) → not (before_reveal ts revealed) ≡ is_since ts revealed
before_reveal-is_since (some ts) (some revealed) = ground arith
before_reveal-is_since (some ts) none = refl
before_reveal-is_since none (some revealed) = refl
before_reveal-is_since none none = refl

module _ {F : Type 0} where
  is_word-eq : (word : String) (v : Option (Json F)) → is_word word v ≡ (as_text v == some word)
  is_word-eq word none = refl
  is_word-eq word (some null) = refl
  is_word-eq word (some (bool b)) = refl
  is_word-eq word (some (num x)) = refl
  is_word-eq word (some (text s)) = refl
  is_word-eq word (some (arr vs)) = refl
  is_word-eq word (some (obj fs)) = refl

module _ {F : Type 0} ⦃numbers : Numbers F⦄ where
  module _ (reading : Reading F) where
    -- The feedback window of a reveal has passed; a reveal without a time is kept waiting.
    abbrev pub is_over : Option ℕ → Bool
    is_over none = false
    is_over (some revealed) = not (leb reading.now (revealed + reading.feedback_window))

    pending_reveal_expired-is_over :
        (ts : Option ℕ) → pending_reveal_expired reading ts ≡ is_over ts
    unfolding pending_reveal_expired
    pending_reveal_expired-is_over none = refl
    pending_reveal_expired-is_over (some revealed) = ground arith

    -- Evidence of the attacker, since the reveal, whose source is the asset.
    abbrev pub is_evidence : String → String → Option ℕ → Dict (Json F) → Bool
    is_evidence a k ts e =
        as_text (get "attacker_key" e) == some k
        && is_since (ts_of reading e) ts
        && as_text (get "asset_id" (as_dict (get "source_ref" e))) == some a

    -- A request of the attacker to the asset, since the reveal.
    abbrev pub is_request : String → String → Option ℕ → Dict (Json F) → Bool
    is_request a k ts e =
        as_text (get "attacker_key" e) == some k
        && as_text (get "asset_id" e) == some a
        && is_since (ts_of reading e) ts

    refers-is_evidence :
        (a k : String) (ts : Option ℕ) (e : Dict (Json F))
        → refers reading a k ts e ≡ is_evidence a k ts e
    unfolding refers
    refers-is_evidence a k ts e = ground (
      arith,
      is_word-eq k (get "attacker_key" e),
      is_word-eq a (get "asset_id" (as_dict (get "source_ref" e))),
      before_reveal-is_since (ts_of reading e) ts,
    )

    is_touch-is_request :
        (a k : String) (ts : Option ℕ) (e : Dict (Json F))
        → is_touch reading a k ts e ≡ is_request a k ts e
    unfolding is_touch
    is_touch-is_request a k ts e = ground (
      arith,
      is_word-eq k (get "attacker_key" e),
      is_word-eq a (get "asset_id" e),
      before_reveal-is_since (ts_of reading e) ts,
    )

    -- The first record that refers decides, and never gives up.
    evidence_outcome-any :
        (a k : String) (ts : Option ℕ) (es : List (Dict (Json F)))
        → ((any (refers reading a k ts) es ≡ false) × (evidence_outcome reading a k ts es ≡ none))
          ⊎ ((any (refers reading a k ts) es ≡ true)
              × ((o : Outcome) × (evidence_outcome reading a k ts es ≡ some o)
                  × (gives_up (some o) ≡ false)))
    unfolding evidence_outcome
    evidence_outcome-any a k ts [] = inl (refl, refl)
    evidence_outcome-any a k ts (e ∷ rest) = elim (Bool-cases (refers reading a k ts e)) [
      | inl here ↦ inr (
        rw here refl,
        (
          if truthy (get "tech_id" e) || truthy (get "group" e) then useful else shallow,
          rw (here, evidence_outcome) refl,
          verdict (truthy (get "tech_id" e) || truthy (get "group" e)),
        ),
      )
      | inr other ↦ rw (other, evidence_outcome) (evidence_outcome-any a k ts rest)
    ]

    touch_outcome-any :
        (a k : String) (ts : Option ℕ) (es : List (Dict (Json F)))
        → touch_outcome reading a k ts es
          ≡ (if any (is_touch reading a k ts) es then some shallow else none)
    unfolding touch_outcome
    touch_outcome-any a k ts [] = refl
    touch_outcome-any a k ts (e ∷ rest) = ground (arith, touch_outcome-any a k ts rest)

    touched-any :
        (a k : String) (ts : Option ℕ)
        → (gives_up (touched reading (some a) (some k) ts) ≡ false)
          × (is_left (touched reading (some a) (some k) ts) ≡ (
              not (any (refers reading a k ts) reading.evidence)
              && not (any (is_touch reading a k ts) reading.internal_http_events)))
    unfolding touched
    touched-any a k ts =
        let events = touch_outcome-any a k ts reading.internal_http_events in
        elim (evidence_outcome-any a k ts reading.evidence) [
          | inr (some_refer, (o, found, stays)) ↦ rw (found, touched, some_refer) (stays, refl)
          | inl (none_refer, found) ↦
              elim (Bool-cases (any (is_touch reading a k ts) reading.internal_http_events)) [
                | inl touch ↦ rw (found, touched, none_refer, events, touch) (refl, refl)
                | inr no_touch ↦ rw (found, touched, none_refer, events, no_touch) (refl, refl)
              ]
        ]

    -- A reveal that names its asset and its attacker is given up as ignored exactly if it is
    -- pending, no stored evidence and no event of the gateway, other than those dated before it, is
    -- of that attacker and names that asset, and its window is over.
    pub outcome_of-gives_up :
        (item : Dict (Json F)) (a k : String)
        → as_text (get "asset_id" item) ≡ some a
        → as_text (get "attacker_key" item) ≡ some k
        → let ts = ts_of reading item in
          gives_up (outcome_of reading item) ≡ (
            as_text (get "status" item) == some "pending"
            && (not (any (is_evidence a k ts) reading.evidence)
                && not (any (is_request a k ts) reading.internal_http_events))
            && is_over ts)
    unfolding outcome_of touched
    outcome_of-gives_up item a k of_asset of_attacker =
        let ts = ts_of reading item in
        let (stays, left) = touched-any a k ts in
        let found =
          touched reading (as_text (get "asset_id" item)) (as_text (get "attacker_key" item)) ts in
        let is : found ≡ touched reading (some a) (some k) ts = rw (of_asset, of_attacker) refl in
        let pending = is_word "pending" (get "status" item) in
        conclusion pending (pending_reveal_expired reading ts) found (ap gives_up is ∙ stays)
        ∙ ap (λ b. pending && b && pending_reveal_expired reading ts)
            (ap is_left is ∙ left ∙ (λ i.
              not (any (λ e. refers-is_evidence a k ts e i) reading.evidence)
              && not (any (λ e. is_touch-is_request a k ts e i) reading.internal_http_events)))
        ∙ ap
            (λ b.
              b
              && (not (any (is_evidence a k ts) reading.evidence)
                  && not (any (is_request a k ts) reading.internal_http_events))
              && pending_reveal_expired reading ts)
            (is_word-eq "pending" (get "status" item))
        ∙ ap
            (λ b.
              (as_text (get "status" item) == some "pending")
              && (not (any (is_evidence a k ts) reading.evidence)
                  && not (any (is_request a k ts) reading.internal_http_events))
              && b)
            (pending_reveal_expired-is_over ts)
