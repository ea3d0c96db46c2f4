-- ===== src/Entrypoint/Hidden.antt =====
-- What of a secret is left by the redaction of services/entrypoint/domain.py.
use honeypot_fyp.Prelude.{
  ℕ, String, Bool, true, false, List, [], ◌∷◌, ◌++◌, Option, none, some, all, All, member,
  if◌then◌else◌, ◌==◌, string_eq, eq_iff, ◌≡◌, refl, sym, ap, ◌∙◌, &&-eq-true, length, append_assoc,
  Bool-cases, inl, inr,
}
use honeypot_fyp.Common.Dict.{Dict, get, put, get-put, last_of}
use honeypot_fyp.Common.Text.{codes}
use honeypot_fyp.Entrypoint.Redact.{
  secret_header_names, redact_loop, redact_headers, in_value, after_name, has_value, match_length,
  secret_fields, Mode, looking, skipping, copying, at_value, look, step, redact,
}

-- The headers whose values are not to be stored.
abbrev pub credentials : List String
credentials = "authorization" ∷ "cookie" ∷ "proxy-authorization" ∷ "set-cookie" ∷ "x-api-key" ∷ []

-- What may be stored of a value that was sent under a name.
abbrev pub shown : String → Option String → Option String
shown name none = none
shown name (some value) = some (if member name credentials then "[redacted]" else value)

-- The headers of a client, under their lowered names.
abbrev pub lowered : (String → String) → Dict String → Dict String
lowered lower [] = []
lowered lower ((name, value) ∷ rest) = (lower name, value) ∷ lowered lower rest

shown_next :
    (n name value : String) (found : Option String) (safe : Dict String)
    → get name safe ≡ shown name found
    → get name (put n (if member n secret_header_names then "[redacted]" else value) safe)
      ≡ shown name (if n == name then some value else found)
shown_next n name value found safe h =
    let written = if member n secret_header_names then "[redacted]" else value in
    elim (Bool-cases (n == name)) [
      | inl same ↦
          rw (get-put n name written safe, same)
            (ap (λ m. some (if member m credentials then "[redacted]" else value))
              ((eq_iff n name).0 same))
      | inr other ↦ rw (get-put n name written safe, other) h
    ]

redact_loop-shown :
    (lower : String → String) (name : String) (found : Option String) (safe headers : Dict String)
    → get name safe ≡ shown name found
    → get name (redact_loop lower safe headers)
      ≡ shown name (last_of name found (lowered lower headers))
unfolding redact_loop
redact_loop-shown lower name found safe [] h = h
redact_loop-shown lower name found safe ((n, v) ∷ rest) h =
    redact_loop-shown lower name (if lower n == name then some v else found)
      (put (lower n) (if member (lower n) secret_header_names then "[redacted]" else v) safe) rest
      (shown_next (lower n) name v found safe h)

pub redact_headers-shown :
    (lower : String → String) (name : String) (headers : Dict String)
    → get name (redact_headers lower headers)
      ≡ shown name (last_of name none (lowered lower headers))
unfolding redact_headers get
redact_headers-shown lower name headers = redact_loop-shown lower name none [] headers refl

module _ (is_word : ℕ → Bool) where
  skipped :
      (value rest : List ℕ)
      → all in_value value ≡ true
      → redact is_word skipping (value ++ rest) ≡ redact is_word skipping rest
  unfolding redact
  skipped [] rest h = refl
  skipped (c ∷ value) rest h =
      let (here, later) = &&-eq-true (in_value c) (all in_value value) h in
      rw here (skipped value rest later)

  copied :
      (c : ℕ) (cs rest : List ℕ)
      → redact is_word (copying (length (c ∷ cs))) (c ∷ cs ++ rest)
        ≡ c ∷ cs ++ redact is_word at_value rest
  unfolding redact step
  copied c [] rest = refl
  copied c (d ∷ cs) rest = ap (◌∷◌ c) (copied d cs rest)

  module _ (v : ℕ) (value rest : List ℕ) where
    -- a field with its name, and what is made of it
    abbrev given : List ℕ → List ℕ
    given name = name ++ (b'=' ∷ v ∷ (value ++ rest))

    abbrev pub hidden : List ℕ → List ℕ
    hidden name = name ++ (b'=' ∷ (codes "[redacted]" ++ redact is_word skipping rest))

    module _ (h : all in_value (v ∷ value) ≡ true) where
      from_match :
          (c d : ℕ) (cs : List ℕ)
          → match_length secret_fields (given (c ∷ d ∷ cs)) ≡ some (length (d ∷ cs ++ b'=' ∷ []))
          → redact is_word (looking false) (given (c ∷ d ∷ cs)) ≡ hidden (c ∷ d ∷ cs)
      unfolding redact look
      from_match c d cs found =
          let tail = d ∷ cs ++ (b'=' ∷ v ∷ (value ++ rest)) in
          let equals : List ℕ = b'=' ∷ [] in
          let (_, later) = &&-eq-true (in_value v) (all in_value value) h in
          let looked = λ (o : Option ℕ). elim o as (λ _. List ℕ × Mode) [
            | some n ↦ (c ∷ [], copying n)
            | none ↦ (c ∷ [], looking (is_word c))
          ] in
          let after = redact is_word skipping (value ++ rest) in
          ap (λ (o : Option ℕ). (looked o).0 ++ redact is_word (looked o).1 tail) found
          ∙ ap (λ t. c ∷ redact is_word (copying (length (d ∷ cs ++ equals))) t)
              (sym (append_assoc (d ∷ cs) equals (v ∷ (value ++ rest))))
          ∙ ap (◌∷◌ c) (copied d (cs ++ equals) (v ∷ (value ++ rest)))
          ∙ ap (◌∷◌ c) (append_assoc (d ∷ cs) equals (codes "[redacted]" ++ after))
          ∙ ap (λ t. c ∷ d ∷ cs ++ (b'=' ∷ (codes "[redacted]" ++ t))) (skipped value rest later)

      -- Of a body with one of the secret fields of the pattern at its start and a value of at least
      -- one character up to a space or an ampersand, the redaction keeps the name, and [redacted]
      -- stands for the whole value, whatever follows and whatever counts as a word character.
      pub redact-field :
          All (λ name. redact is_word (looking false) (given name) ≡ hidden name) secret_fields
      unfolding match_length after_name has_value
      redact-field =
          let (first, _) = &&-eq-true (in_value v) (all in_value value) h in
          (
            from_match b'p' b'a' (b's' ∷ b's' ∷ b'w' ∷ b'o' ∷ b'r' ∷ b'd' ∷ []) (rw first refl),
            (
              from_match b'p' b'a' (b's' ∷ b's' ∷ b'w' ∷ b'd' ∷ []) (rw first refl),
              (
                from_match b'p' b'w' (b'd' ∷ []) (rw first refl),
                (
                  from_match b't' b'o' (b'k' ∷ b'e' ∷ b'n' ∷ []) (rw first refl),
                  (
                    from_match b's' b'e' (b'c' ∷ b'r' ∷ b'e' ∷ b't' ∷ []) (rw first refl),
                    (
                      from_match b'a' b'p' (b'i' ∷ b'_' ∷ b'k' ∷ b'e' ∷ b'y' ∷ []) (rw first refl),
                      (
                        from_match b'a' b'p' (b'i' ∷ b'k' ∷ b'e' ∷ b'y' ∷ []) (rw first refl),
                        (
                          from_match b'a' b'c'
                              (b'c' ∷ b'e' ∷ b's' ∷ b's' ∷ b'_' ∷ b'k' ∷ b'e' ∷ b'y' ∷ [])
                              (rw first refl),
                          tt,
                        ),
                      ),
                    ),
                  ),
                ),
              ),
            ),
          )
