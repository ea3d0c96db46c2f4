-- ===== src/Common/Text.antt =====
-- Python's text methods that the program walks: `strip`, `split` at a mark, `lower` for a lookup.
pub mod Order
use Prim.Native.Char.{Char, code}
use Prim.Native.String
use honeypot_fyp.Prelude.{
  ℕ, zero, suc, ◌+◌, String, Bool, true, false, ◌&&◌, ◌||◌, List, [], ◌∷◌, Option, none, some, ◌≡◌,
  refl, arith, leb, nat_beq, if◌then◌else◌, Bool-cases, inl, inr, ap,
}

abbrev pub codes : String → List ℕ
codes String.[] = []
codes (String.◌∷◌ c s) = code c ∷ codes s

abbrev pub is_blank : String → Bool
is_blank String.[] = true
is_blank (String.◌∷◌ c s) = false

-- `s + t`
abbrev pub concat : String → String → String
concat String.[] t = t
concat (String.◌∷◌ c s) t = String.◌∷◌ c (concat s t)

-- The truth value of an optional text: the empty text counts as none.
abbrev pub non_blank : Option String → Option String
non_blank none = none
non_blank (some s) = if is_blank s then none else some s

-- `str.isspace` of one character.
unfoldable pub is_space : ℕ → Bool
is_space c =
    (leb 9 c && leb c 13)
    || (leb 28 c && leb c 32)
    || nat_beq c 133
    || nat_beq c 160
    || nat_beq c 5760
    || (leb 8192 c && leb c 8202)
    || nat_beq c 8232
    || nat_beq c 8233
    || nat_beq c 8239
    || nat_beq c 8287
    || nat_beq c 12288

strip_left : String → String
unfolding is_space
strip_left String.[] = String.[]
strip_left (String.◌∷◌ c s) =
    let rest = strip_left s in if is_space (code c) then rest else String.◌∷◌ c s

strip_right : String → String
unfolding is_space
strip_right String.[] = String.[]
strip_right (String.◌∷◌ c s) =
    let rest = strip_right s in
    if is_blank rest && is_space (code c) then String.[] else String.◌∷◌ c rest

-- `s.strip()`
unfoldable pub strip : String → String
unfolding strip_left strip_right
strip s = strip_right (strip_left s)

-- `s.split(mark, 1)[0]`: all of `s` where the mark is not there.
unfoldable pub before : ℕ → String → String
before mark String.[] = String.[]
before mark (String.◌∷◌ c s) =
    if nat_beq (code c) mark then String.[] else String.◌∷◌ c (before mark s)

-- `s.split(mark, 1)[1]`, where the mark is there.
unfoldable pub after : ℕ → String → Option String
after mark String.[] = none
after mark (String.◌∷◌ c s) =
    let rest = after mark s in if nat_beq (code c) mark then some s else rest

-- `s[n:]`
unfoldable pub suffix : ℕ → String → String
suffix zero s = s
suffix (suc n) String.[] = String.[]
suffix (suc n) (String.◌∷◌ c s) = suffix n s

abbrev pub or_here : Option String → Bool → String → Option String
or_here (some later) here rest = some later
or_here none true rest = some rest
or_here none false rest = none

-- `s.startswith(mark)`
unfoldable pub begins : String → String → Bool
begins String.[] s = true
begins (String.◌∷◌ m mark) String.[] = false
begins (String.◌∷◌ m mark) (String.◌∷◌ c s) = nat_beq (code m) (code c) && begins mark s

-- `s.rsplit(mark, 1)[1]`, where the mark, a text of `n` characters, is there.
unfoldable pub after_last : ℕ → String → String → Option String
unfolding suffix begins
after_last n mark String.[] = none
after_last n mark (String.◌∷◌ c s) =
    or_here (after_last n mark s) (begins mark (String.◌∷◌ c s)) (suffix n (String.◌∷◌ c s))

-- `s[:n]`
unfoldable pub prefix : ℕ → String → String
prefix zero s = String.[]
prefix (suc n) String.[] = String.[]
prefix (suc n) (String.◌∷◌ c s) = String.◌∷◌ c (prefix n s)

-- The code points of `s.lower()`, for a text that is looked up among ASCII words.
unfoldable pub lower : String → List ℕ
lower String.[] = []
lower (String.◌∷◌ c s) =
    (if leb b'A' (code c) && leb (code c) b'Z' then code c + 32 else code c) ∷ lower s

-- `needle in hay` and `hay.startswith(needle)`, on code points
unfoldable pub leads : List ℕ → List ℕ → Bool
leads [] hay = true
leads (n ∷ needle) [] = false
leads (n ∷ needle) (c ∷ hay) = nat_beq n c && leads needle hay

unfoldable pub occurs : List ℕ → List ℕ → Bool
unfolding leads
occurs needle [] = leads needle []
occurs needle (c ∷ hay) = leads needle (c ∷ hay) || occurs needle hay

-- `s` is `before + mark + after` where the mark occurs, and `before` alone where it does not.
pub before-before : (mark : ℕ) (s : String) → before mark (before mark s) ≡ before mark s
unfolding before
before-before mark String.[] = refl
before-before mark (String.◌∷◌ c s) = elim (Bool-cases (nat_beq (code c) mark)) [
  | inl here ↦ rw here
  | inr past ↦ rw past (rw past (ap (String.◌∷◌ c) (before-before mark s)))
]
