-- ===== src/Common/Numbers.antt =====
-- The numbers of JSON, as an interface: which of them are Python's `int`, and `int(x)`. A port is a
-- natural number, so a negative int is left out.
use honeypot_fyp.Prelude.{ℕ, String, Bool, Option, some, none, ◌≡◌, refl, nat_beq, if◌then◌else◌}
use honeypot_fyp.Common.Json.{Json, null, bool, num, text, arr, obj, nil, end}

pub record Numbers (F : Type 0) : Type 0 where
  pub of_int : ℕ → F
  -- the value of an `int`; none for a `float`
  pub int_of : F → Option ℕ
  -- `int(x)` of a number and of a text; none where it raises
  pub trunc : F → Option ℕ
  pub parse_int : String → Option ℕ
  -- `x == y`
  pub num_eq : F → F → Bool
  pub int_of-of_int : (n : ℕ) → int_of (of_int n) ≡ some n
  pub trunc-of_int : (n : ℕ) → trunc (of_int n) ≡ some n
  pub num_eq-of_int : (m n : ℕ) → num_eq (of_int m) (of_int n) ≡ nat_beq m n

module _ {F : Type 0} ⦃numbers : Numbers F⦄ where
  -- The value where `isinstance(v, int)`: a bool is an int.
  abbrev pub as_int : Option (Json F) → Option ℕ
  as_int (some (num x)) = numbers.int_of x
  as_int (some (bool b)) = some (if b then 1 else 0)
  as_int _ = none

  -- `int(value or 0)`; none where it raises
  abbrev pub int_or_zero : Option (Json F) → Option ℕ
  int_or_zero none = some 0
  int_or_zero (some null) = some 0
  int_or_zero (some (bool b)) = some (if b then 1 else 0)
  int_or_zero (some (num x)) = numbers.trunc x
  int_or_zero (some (text String.[])) = some 0
  int_or_zero (some (text s)) = numbers.parse_int s
  int_or_zero (some (arr nil)) = some 0
  int_or_zero (some (obj end)) = some 0
  int_or_zero _ = none

-- A machine whose numbers are all ints.
instance abbrev pub ints : Numbers ℕ
ints = record {
  of_int = λ n. n;
  int_of = λ n. some n;
  trunc = λ n. some n;
  parse_int = λ s. none;
  num_eq = nat_beq;
  int_of-of_int = λ n. refl;
  trunc-of_int = λ n. refl;
  num_eq-of_int = λ m n. refl;
}
