-- ===== src/Common/Dict.antt =====
-- A Python `dict` with text keys: pairs in the order of insertion. A write to a key that is there
-- keeps its place; a new key goes to the end.
use honeypot_fyp.Prelude.{
  String, false, ◌||◌, List, [], ◌∷◌, ◌++◌, Option, none, some, ◌≡◌, refl, sym, ap, ◌∙◌, append-nil,
  append_assoc, arith, eq_iff, ◌==◌, string_eq, if◌then◌else◌, member, Distinct, Distinct-middle,
  Bool-cases, inl, inr,
}

abbrev pub Dict {ℓ} : Type ℓ → Type ℓ
Dict V = List (String × V)

module _ {ℓ} {V : Type ℓ} where
  -- `d.get(k)`
  unfoldable pub get : String → Dict V → Option V
  get k [] = none
  get k ((j, v) ∷ d) = if j == k then some v else get k d

  -- `d[k] = v`
  unfoldable pub put : String → V → Dict V → Dict V
  put k v [] = (k, v) ∷ []
  put k v ((j, w) ∷ d) = if j == k then (j, v) ∷ d else (j, w) ∷ put k v d

  -- `d.get(k, default)`
  unfoldable pub get_or : String → Dict V → V → V
  unfolding get
  get_or k d default = elim (get k d) [ some v ↦ v | none ↦ default ]

  abbrev pub keys : Dict V → List String
  keys [] = []
  keys ((k, v) ∷ d) = k ∷ keys d

  abbrev pub values : Dict V → List V
  values [] = []
  values ((k, v) ∷ d) = v ∷ values d

  -- `{k: v for k, v in pairs}`: a later value of a key replaces an earlier one.
  put_all : Dict V → List (String × V) → Dict V
  unfolding put
  put_all d [] = d
  put_all d ((k, v) ∷ pairs) = put_all (put k v d) pairs

  unfoldable pub of_pairs : List (String × V) → Dict V
  unfolding put_all
  of_pairs pairs = put_all [] pairs

  pub get-put :
      (k j : String) (v : V) (d : Dict V) → get j (put k v d) ≡ (if k == j then some v else get j d)
  unfolding get put
  get-put k j v [] = refl
  get-put k j v ((i, w) ∷ d) = ground (arith, eq_iff k j, eq_iff i k, eq_iff i j, get-put k j v d)

  pub member-keys-put :
      (k j : String) (v : V) (d : Dict V)
      → member j (keys (put k v d)) ≡ (k == j || member j (keys d))
  unfolding put
  member-keys-put k j v [] = refl
  member-keys-put k j v ((i, w) ∷ d) =
      ground (arith, eq_iff k j, eq_iff i k, eq_iff i j, member-keys-put k j v d)

  pub put-Distinct :
      (k : String) (v : V) (d : Dict V) → Distinct (keys d) → Distinct (keys (put k v d))
  unfolding put
  put-Distinct k v [] h = (refl, tt)
  put-Distinct k v ((i, w) ∷ d) h = elim (Bool-cases (i == k)) [
    | inl same ↦ rw same h
    | inr other ↦ rw other (
      ground (arith, member-keys-put k i v d, eq_iff k i, eq_iff i k, h.0),
      put-Distinct k v d h.1,
    )
  ]

  put_fresh :
      (k : String) (v : V) (d : Dict V) → member k (keys d) ≡ false → put k v d ≡ d ++ (k, v) ∷ []
  unfolding put
  put_fresh k v [] h = refl
  put_fresh k v ((i, w) ∷ d) h = ground (arith, put_fresh k v d)

  keys-append : (d e : Dict V) → keys (d ++ e) ≡ keys d ++ keys e
  keys-append [] e = refl
  keys-append ((k, v) ∷ d) e = ap (◌∷◌ k) (keys-append d e)

  put_all_fresh : (d pairs : Dict V) → Distinct (keys (d ++ pairs)) → put_all d pairs ≡ d ++ pairs
  unfolding put_all
  put_all_fresh d [] h = sym (append-nil d)
  put_all_fresh d ((k, v) ∷ pairs) h =
      let fresh : member k (keys d) ≡ false =
        Distinct-middle (keys d) k (keys pairs) (rw keys-append at h) in
      rw (put_fresh k v d fresh) (
        put_all_fresh (d ++ (k, v) ∷ []) pairs (rw (append_assoc d ((k, v) ∷ []) pairs) h)
        ∙ append_assoc d ((k, v) ∷ []) pairs)

  -- Pairs with different keys are a dictionary as they stand.
  pub of_pairs-Distinct : (pairs : Dict V) → Distinct (keys pairs) → of_pairs pairs ≡ pairs
  unfolding of_pairs
  of_pairs-Distinct pairs h = put_all_fresh [] pairs h

  -- The last value of a key, which a comprehension keeps.
  abbrev pub last_of : String → Option V → List (String × V) → Option V
  last_of j found [] = found
  last_of j found ((k, v) ∷ pairs) = last_of j (if k == j then some v else found) pairs

  get-put_all :
      (j : String) (d : Dict V) (pairs : List (String × V))
      → get j (put_all d pairs) ≡ last_of j (get j d) pairs
  unfolding put_all
  get-put_all j d [] = refl
  get-put_all j d ((k, v) ∷ pairs) = rw (get-put_all j (put k v d) pairs, get-put k j v d)

  pub get-of_pairs :
      (j : String) (pairs : List (String × V)) → get j (of_pairs pairs) ≡ last_of j none pairs
  unfolding of_pairs get
  get-of_pairs j pairs = get-put_all j [] pairs
