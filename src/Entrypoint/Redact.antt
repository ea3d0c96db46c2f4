-- ===== src/Entrypoint/Redact.antt =====
-- `_redact_headers` and `_redact_body_preview` of services/entrypoint/domain.py. A text is walked by its code
-- points; the pattern is (?i)\b(password|passwd|pwd|token|secret|api_key|apikey|access_key)=([^&\s]+).
use honeypot_fyp.Prelude.{
  ℕ, suc, ◌+◌, String, Bool, true, false, not, ◌&&◌, ◌||◌, List, [], ◌∷◌, ◌++◌, Option, none, some,
  length, leb, nat_beq, member, if◌then◌else◌, string_eq,
}
use honeypot_fyp.Common.Dict.{Dict, put}
use honeypot_fyp.Common.Text.{codes, is_space}

abbrev pub secret_header_names : List String
secret_header_names =
    "authorization" ∷ "cookie" ∷ "proxy-authorization" ∷ "set-cookie" ∷ "x-api-key" ∷ []

-- the loop of `_redact_headers`, where `lower` is `str.lower`
unfoldable pub redact_loop : (String → String) → Dict String → Dict String → Dict String
unfolding put
redact_loop lower safe [] = safe
redact_loop lower safe ((name, value) ∷ rest) =
    let normalized = lower name in
    redact_loop lower
      (put normalized (if member normalized secret_header_names then "[redacted]" else value) safe)
      rest

unfoldable pub redact_headers : (String → String) → Dict String → Dict String
unfolding redact_loop
redact_headers lower headers = redact_loop lower [] headers

-- One letter of the pattern without regard to case: Unicode has more letters that fold to i, k and s.
unfoldable pub same_letter : ℕ → ℕ → Bool
same_letter l c =
    nat_beq l c
    || (leb b'a' l && leb l b'z' && nat_beq l (c + 32))
    || (nat_beq l b'i' && (nat_beq c 304 || nat_beq c 305))
    || (nat_beq l b'k' && nat_beq c 8490)
    || (nat_beq l b's' && nat_beq c 383)

-- What follows the name, where the text begins with it.
unfoldable pub after_name : List ℕ → List ℕ → Option (List ℕ)
unfolding same_letter
after_name [] cs = some cs
after_name (l ∷ name) [] = none
after_name (l ∷ name) (c ∷ cs) =
    let rest = after_name name cs in if same_letter l c then rest else none

-- `[^&\s]`
unfoldable pub in_value : ℕ → Bool
unfolding is_space
in_value c = not (nat_beq c b'&') && not (is_space c)

-- `=` and a first character of a value
unfoldable pub has_value : Option (List ℕ) → Bool
has_value (some (c ∷ v ∷ cs)) = nat_beq c b'=' && in_value v
has_value _ = false

abbrev pub secret_fields : List (List ℕ)
secret_fields =
    codes "password"
    ∷ codes "passwd"
    ∷ codes "pwd"
    ∷ codes "token"
    ∷ codes "secret"
    ∷ codes "api_key"
    ∷ codes "apikey"
    ∷ codes "access_key"
    ∷ []

-- The length of the first name of the pattern that matches here with a value.
unfoldable pub match_length : List (List ℕ) → List ℕ → Option ℕ
unfolding after_name has_value
match_length [] cs = none
match_length (name ∷ rest) cs =
    let later = match_length rest cs in
    if has_value (after_name name cs) then some (length name) else later

-- `re.sub` walks the text once: it looks for a match, or copies a name and its `=`, or skips a value.
pub data Mode : Type 0 where
  -- whether the character before is a word character, `\b`
  looking : Bool → Mode
  copying : ℕ → Mode
  at_value : Mode
  skipping : Mode

module _ (is_word : ℕ → Bool) where
  -- what is written for the character in front, and the mode for the rest
  unfoldable pub look : Bool → List ℕ → ℕ → List ℕ × Mode
  unfolding match_length
  look after_word cs c = elim (if after_word then none else match_length secret_fields cs) [
    | some n ↦ (c ∷ [], copying n)
    | none ↦ (c ∷ [], looking (is_word c))
  ]

  unfoldable pub step : Mode → List ℕ → ℕ → List ℕ × Mode
  unfolding look in_value
  step (looking after_word) cs c = look after_word cs c
  step (copying (suc (suc n))) cs c = (c ∷ [], copying (suc n))
  step (copying n) cs c = (c ∷ [], at_value)
  step at_value cs c = (codes "[redacted]", skipping)
  step skipping cs c = if in_value c then ([], skipping) else look true cs c

  unfoldable pub redact : Mode → List ℕ → List ℕ
  unfolding step
  redact mode [] = []
  redact mode (c ∷ cs) = let (written, next) = step mode (c ∷ cs) c in written ++ redact next cs

  -- `_redact_body_preview`
  unfoldable pub redact_body_preview : Option (List ℕ) → Option (List ℕ)
  unfolding redact
  redact_body_preview none = none
  redact_body_preview (some body) = some (redact (looking false) body)
