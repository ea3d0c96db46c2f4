-- ===== src/Feedback/Tally.antt =====
-- The counters of scripts/runtime/adaptive_controller_loop.py: each one grows by the reveals that are resolved for it.
use honeypot_fyp.Prelude.{
  ℕ, ◌+◌, String, Bool, true, false, ◌&&◌, [], ◌∷◌, Option, none, some, if◌then◌else◌, ◌==◌,
  string_eq, option_eq, list_eq, ◌≡◌, refl, ap, ◌∙◌, arith, Bool-cases, inl, inr, eq_iff,
}
use honeypot_fyp.Common.Dict.{Dict, get, put, get-put}
use honeypot_fyp.Common.Json.{Json, num}
use honeypot_fyp.Common.JsonStore.{Payload}
use honeypot_fyp.Common.JsonStore.Nested.{
  mutable_nested_dict, nested_at, nested_at-mutable_nested_dict, get-mutable_nested_dict, increment,
}
use honeypot_fyp.Common.Numbers.{Numbers, int_or_zero}
use honeypot_fyp.Feedback.Outcomes.{Outcome, outcome_text}
use honeypot_fyp.Feedback.Update.{group_path, count_in}

abbrev pub one_if : Bool → ℕ
one_if b = if b then 1 else 0

-- the counts with what an item adds
abbrev pub grown :
    (String → String → String → ℕ)
    → String
    → Option String
    → Option String
    → String
    → String
    → String
    → ℕ
grown n word context group c g w =
    n c g w + one_if (word == w && context == some c && group == some g)

module _ {F : Type 0} ⦃numbers : Numbers F⦄ where
  -- the count that the file has of an outcome
  abbrev pub counter : String → String → Outcome → Payload F → Option ℕ
  counter context_key asset_group outcome payload =
      int_or_zero
        (get (outcome_text outcome) (nested_at (group_path context_key asset_group) payload))

  -- Every count can be read.
  abbrev pub HasCounts : (String → String → String → ℕ) → Payload F → Type 0
  HasCounts n payload =
      (c g : String) (o : Outcome) → counter c g o payload ≡ some (n c g (outcome_text o))

  increment-counts :
      (o : Outcome) (group : Dict (Json F)) (n : ℕ)
      → int_or_zero (get (outcome_text o) group) ≡ some n
      → (inner : Dict (Json F)) × (increment (outcome_text o) group ≡ some inner)
        × ((word : String)
            → int_or_zero (get word inner)
              ≡ (if outcome_text o == word then some (n + 1) else int_or_zero (get word group)))
  unfolding increment
  increment-counts o group n h = (
    put (outcome_text o) (num (numbers.of_int (n + 1))) group,
    rw h refl,
    λ word. elim (Bool-cases (outcome_text o == word)) [
      | inl same ↦
          rw (get-put (outcome_text o) word (num (numbers.of_int (n + 1))) group, same)
            (numbers.trunc-of_int (n + 1))
      | inr other ↦
          rw (get-put (outcome_text o) word (num (numbers.of_int (n + 1))) group, other) refl
    ],
  )

  grown_here :
      (n : String → String → String → ℕ) (o o' : Outcome) (context group c g : String)
      (payload : Payload F)
      → HasCounts n payload
      → context ≡ c
      → group ≡ g
      → (if outcome_text o == outcome_text o'
          then some (n context group (outcome_text o) + 1)
          else counter context group o' payload)
        ≡ some
            (n c g (outcome_text o') + one_if (outcome_text o == outcome_text o' && true && true))
  grown_here n o o' context group c g payload h e e' =
      elim (Bool-cases (outcome_text o == outcome_text o')) [
        | inl same ↦
            let word = (eq_iff (outcome_text o) (outcome_text o')).0 same in
            rw same (λ i. some (n (e i) (e' i) (word i) + 1))
        | inr other ↦ rw other (
            h context group o'
            ∙ (λ i. some (n (e i) (e' i) (outcome_text o')))
            ∙ ap some (omega arith))
      ]

  pub count_in-HasCounts :
      (n : String → String → String → ℕ) (o : Outcome) (context group : Option String)
      (payload : Payload F)
      → HasCounts n payload
      → (payload' : Payload F) × (count_in o context group payload ≡ some payload')
        × HasCounts (grown n (outcome_text o) context group) payload'
        × ((k : String) → ("contexts" == k) ≡ false → get k payload' ≡ get k payload)
  unfolding mutable_nested_dict
  count_in-HasCounts n o none group payload h =
      (payload, refl, λ c g o'. h c g o' ∙ ground arith, λ k other. refl)
  count_in-HasCounts n o (some context) none payload h =
      (payload, refl, λ c g o'. h c g o' ∙ ground arith, λ k other. refl)
  count_in-HasCounts n o (some context) (some group) payload h =
      let path = group_path context group in
      let (inner, made, counts) =
        increment-counts o (nested_at path payload) (n context group (outcome_text o))
          (h context group o) in
      let (payload', done, at) =
        nested_at-mutable_nested_dict (increment (outcome_text o)) inner path payload made in
      (
        payload',
        done,
        λ c g o'. rw (at (group_path c g) refl) (elim (Bool-cases (context == c)) [
          | inr other ↦ rw other (h c g o' ∙ ground arith)
          | inl same ↦ elim (Bool-cases (group == g)) [
            | inr other ↦ rw (same, other) (h c g o' ∙ ground arith)
            | inl same' ↦
                rw (same, same')
                  (counts (outcome_text o')
                    ∙ grown_here n o o' context group c g payload h ((eq_iff context c).0 same)
                        ((eq_iff group g).0 same'))
          ]
        ]),
        get-mutable_nested_dict (increment (outcome_text o)) "contexts"
            (context ∷ "asset_groups" ∷ group ∷ []) payload payload' done,
      )
