-- ===== src/Common/Text/Order.antt =====
-- Python's `<` on texts: by code points, from the left.
use honeypot_fyp.Prelude.{
  ℕ, String, Bool, true, false, List, [], ◌∷◌, ◌≡◌, refl, arith, ltb, nat_beq, if◌then◌else◌,
  member, ◌||◌, ◌==◌, string_eq,
}
use honeypot_fyp.Common.Text.{codes}

unfoldable pub codes_lt : List ℕ → List ℕ → Bool
codes_lt [] [] = false
codes_lt [] (d ∷ ds) = true
codes_lt (c ∷ cs) [] = false
codes_lt (c ∷ cs) (d ∷ ds) = let rest = codes_lt cs ds in if nat_beq c d then rest else ltb c d

unfoldable pub text_lt : String → String → Bool
unfolding codes_lt
text_lt a b = codes_lt (codes a) (codes b)

codes_lt_asym : (xs ys : List ℕ) → codes_lt xs ys ≡ true → codes_lt ys xs ≡ false
unfolding codes_lt
codes_lt_asym [] [] h = refl
codes_lt_asym [] (d ∷ ds) h = refl
codes_lt_asym (c ∷ cs) [] h = cc
codes_lt_asym (c ∷ cs) (d ∷ ds) h = ground (arith, codes_lt_asym cs ds)

-- `not (b < a)` and `not (c < b)` give `not (c < a)`.
codes_le_trans :
    (xs ys zs : List ℕ) → codes_lt ys xs ≡ false → codes_lt zs ys ≡ false → codes_lt zs xs ≡ false
unfolding codes_lt
codes_le_trans [] ys [] h k = refl
codes_le_trans [] [] (z ∷ zs) h k = refl
codes_le_trans [] (y ∷ ys) (z ∷ zs) h k = refl
codes_le_trans (x ∷ xs) [] [] h k = cc
codes_le_trans (x ∷ xs) [] (z ∷ zs) h k = cc
codes_le_trans (x ∷ xs) (y ∷ ys) [] h k = cc
codes_le_trans (x ∷ xs) (y ∷ ys) (z ∷ zs) h k = ground (arith, codes_le_trans xs ys zs)

pub text_lt_asym : (a b : String) → text_lt a b ≡ true → text_lt b a ≡ false
unfolding text_lt
text_lt_asym a b h = codes_lt_asym (codes a) (codes b) h

pub text_le_trans :
    (a b c : String) → text_lt b a ≡ false → text_lt c b ≡ false → text_lt c a ≡ false
unfolding text_lt
text_le_trans a b c h k = codes_le_trans (codes a) (codes b) (codes c) h k

insert_text : String → List String → List String
unfolding text_lt
insert_text a [] = a ∷ []
insert_text a (b ∷ rest) = if text_lt b a then b ∷ insert_text a rest else a ∷ b ∷ rest

-- `sorted(texts)`
unfoldable pub sorted : List String → List String
unfolding insert_text
sorted [] = []
sorted (a ∷ rest) = insert_text a (sorted rest)

member-insert_text :
    (k a : String) (xs : List String) → member k (insert_text a xs) ≡ (a == k || member k xs)
unfolding insert_text
member-insert_text k a [] = refl
member-insert_text k a (b ∷ xs) = ground (arith, member-insert_text k a xs)

pub member-sorted : (k : String) (xs : List String) → member k (sorted xs) ≡ member k xs
unfolding sorted
member-sorted k [] = refl
member-sorted k (a ∷ xs) = ground (arith, member-sorted k xs, member-insert_text k a (sorted xs))
