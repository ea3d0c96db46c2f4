-- ===== src/Binding/Invariant.antt =====
-- The records over any sequence of calls of `BindingService`: an invariant, and what no call undoes.
use honeypot_fyp.Prelude.{
  ℕ, String, false, List, [], ◌∷◌, Option, none, some, All, All-append, ◌≡◌, inl, inr, refl, ap,
  string_eq, Distinct, member, leb, Bool-cases, Option-cases, any,
}
use honeypot_fyp.Common.Dict.{Dict, get_or}
use honeypot_fyp.Common.JsonStore.{replace}
use honeypot_fyp.Contracts.Bindings.{BindingRecord, RecycleMode, idle_mode, hard_mode}
use honeypot_fyp.Binding.Repository.{Records, get_by_attacker, get_by_binding, same_id, upsert}
use honeypot_fyp.Binding.Service
use honeypot_fyp.Binding.Service.{
  Outcome, ok, binding_not_found, resolved, modify, modify_found, lookup_or_raise, beaten, put_away,
  unlocked, configured, ◌>>=◌,
}
use honeypot_fyp.Binding.Lookup.{ids, In, ids-upsert-Distinct}
use honeypot_fyp.Binding.Current.{found_by_binding, found_by_attacker}
use honeypot_fyp.Binding.Unlocks.{
  IsWellFormed, unlocked_assets_exact, revealed_configurations_exact,
}

-- A call, with what it reads from the clock and from `uuid4`.
pub data Command : Type 0 where
  resolve : ℕ → String → String → Command
  heartbeat : ℕ → String → Command
  recycle : ℕ → RecycleMode → String → Command
  unlock_assets : ℕ → List String → String → Command
  reveal_configurations : ℕ → Dict (List String) → String → Command

-- What a call leaves stored: one that raises has written nothing.
abbrev pub settle : Records → Outcome (BindingRecord × Records) → Records
settle xs (ok (r, ys)) = ys
settle xs (binding_not_found id) = xs

-- How a call changes the record that it finds.
abbrev pub change : ℕ → Command → BindingRecord → BindingRecord
change ttl (resolve now uuid a) r = r
change ttl (heartbeat ts id) r = beaten ttl ts r
change ttl (recycle now mode id) r = put_away ttl now mode r
change ttl (unlock_assets now assets id) r = unlocked now assets r
change ttl (reveal_configurations now confs id) r = configured now confs r

unfoldable pub apply : ℕ → Command → Records → Records
apply ttl (resolve now uuid a) xs = (Service.resolve ttl now uuid a xs).1
apply ttl (heartbeat ts id) xs = settle xs (Service.heartbeat ttl ts id xs)
apply ttl (recycle now mode id) xs = settle xs (Service.recycle ttl now mode id xs)
apply ttl (unlock_assets now assets id) xs = settle xs (Service.unlock_assets now assets id xs)
apply ttl (reveal_configurations now confs id) xs =
    settle xs (Service.reveal_configurations now confs id xs)

-- `uuid4` gives an id that no record has.
abbrev pub IsFresh : Command → Records → Type 0
IsFresh (resolve now uuid a) xs = member uuid (ids xs) ≡ false
IsFresh _ xs = Unit {0}

pub record IsValid (xs : Records) : Type 0 where
  pub distinct : Distinct (ids xs)
  pub formed : All IsWellFormed xs

-- The calls that look a record up by its id.
abbrev target : Command → Option String
target (resolve now uuid a) = none
target (heartbeat ts id) = some id
target (recycle now mode id) = some id
target (unlock_assets now assets id) = some id
target (reveal_configurations now confs id) = some id

pub settle_missing :
    (f : BindingRecord → BindingRecord) (id : String) (xs : Records)
    → get_by_binding id xs ≡ none
    → settle xs (modify f id xs) ≡ xs
unfolding Service.get
settle_missing f id xs h =
    ap
      (λ (o : Option BindingRecord). settle xs (lookup_or_raise id o >>= λ r. ok (upsert (f r) xs)))
      h

module _ (P : Records → Type 0) (f : BindingRecord → BindingRecord) (id : String)
    (xs : Records) where
  pub settle_modify :
      P xs
      → ((r : BindingRecord) → get_by_binding id xs ≡ some r → P (upsert (f r) xs).1)
      → P (settle xs (modify f id xs))
  settle_modify same written = elim (Option-cases (get_by_binding id xs)) [
    | inl missing ↦ rw (settle_missing f id xs missing) same
    | inr (r, found) ↦ rw (modify_found f id xs r found) (written r found)
  ]

All-replace :
    (P : BindingRecord → Type 0) (r : BindingRecord) (xs : Records)
    → P r
    → All P xs
    → All P (replace (same_id r) r xs)
unfolding replace
All-replace P r [] p h = tt
All-replace P r (x ∷ xs) p h = elim (Bool-cases (same_id r x)) [
  | inl here ↦ rw here (p, All-replace P r xs p h.1)
  | inr past ↦ rw past (h.0, All-replace P r xs p h.1)
]

All-upsert :
    (P : BindingRecord → Type 0) (r : BindingRecord) (xs : Records)
    → P r
    → All P xs
    → All P (upsert r xs).1
unfolding upsert
All-upsert P r xs p h = elim (Bool-cases (any (same_id r) xs)) [
  | inl there ↦ rw there (All-replace P r xs p h)
  | inr missing ↦ rw missing (All-append P _ (r ∷ []) (All-replace P r xs p h) (p, tt))
]

All-In : (P : BindingRecord → Type 0) (r : BindingRecord) (xs : Records) → All P xs → In r xs → P r
All-In P r [] h there = absurd there
All-In P r (x ∷ xs) h (inl e) = rw e h.0
All-In P r (x ∷ xs) h (inr there) = All-In P r xs h.1 there

change-IsWellFormed :
    (ttl : ℕ) (c : Command) (r : BindingRecord) → IsWellFormed r → IsWellFormed (change ttl c r)
unfolding beaten put_away
change-IsWellFormed ttl (resolve now uuid a) r h = h
change-IsWellFormed ttl (heartbeat ts id) r h = record {
  assets = h.assets;
  buckets = h.buckets;
  bucket_keys = h.bucket_keys;
}
change-IsWellFormed ttl (recycle now idle_mode id) r h = record {
  assets = h.assets;
  buckets = h.buckets;
  bucket_keys = h.bucket_keys;
}
change-IsWellFormed ttl (recycle now hard_mode id) r h = record {
  assets = h.assets;
  buckets = h.buckets;
  bucket_keys = h.bucket_keys;
}
change-IsWellFormed ttl (unlock_assets now assets id) r h = (unlocked_assets_exact now assets r h).1
change-IsWellFormed ttl (reveal_configurations now confs id) r h =
    (revealed_configurations_exact now confs r h).1

resolved-IsWellFormed :
    (ttl now : ℕ) (uuid a : String) (o : Option BindingRecord)
    → ((r : BindingRecord) → o ≡ some r → IsWellFormed r)
    → IsWellFormed (resolved ttl now uuid a o)
unfolding resolved get_or
resolved-IsWellFormed ttl now uuid a none h = record {
  assets = tt;
  buckets = λ k. tt;
  bucket_keys = tt;
}
resolved-IsWellFormed ttl now uuid a (some r) h = elim (Bool-cases (leb now r.ttl_expires_at)) [
  | inl alive ↦
      let v = h r refl in
      rw alive (record { assets = v.assets; buckets = v.buckets; bucket_keys = v.bucket_keys })
  | inr expired ↦ rw expired (record { assets = tt; buckets = λ k. tt; bucket_keys = tt })
]

upsert-IsValid :
    (r : BindingRecord) (xs : Records) → IsWellFormed r → IsValid xs → IsValid (upsert r xs).1
upsert-IsValid r xs f v = record {
  distinct = ids-upsert-Distinct r xs v.distinct;
  formed = All-upsert IsWellFormed r xs f v.formed;
}

settle-IsValid :
    (ttl : ℕ) (c : Command) (id : String) (xs : Records)
    → IsValid xs
    → IsValid (settle xs (modify (change ttl c) id xs))
settle-IsValid ttl c id xs v = settle_modify IsValid (change ttl c) id xs v λ r found.
    upsert-IsValid (change ttl c r) xs
      (change-IsWellFormed ttl c r
        (All-In IsWellFormed r xs v.formed (found_by_binding id xs r found).0))
      v

-- Every call keeps the ids different, and every record free of repeats.
pub apply-IsValid : (ttl : ℕ) (c : Command) (xs : Records) → IsValid xs → IsValid (apply ttl c xs)
unfolding apply Service.resolve Service.heartbeat Service.recycle Service.unlock_assets
    Service.reveal_configurations
apply-IsValid ttl (resolve now uuid a) xs v =
    upsert-IsValid _ xs
      (resolved-IsWellFormed ttl now uuid a (get_by_attacker a xs) (λ r found.
        All-In IsWellFormed r xs v.formed (found_by_attacker a xs r v.distinct found).0))
      v
apply-IsValid ttl (heartbeat ts id) xs v = settle-IsValid ttl (heartbeat ts id) id xs v
apply-IsValid ttl (recycle now mode id) xs v = settle-IsValid ttl (recycle now mode id) id xs v
apply-IsValid ttl (unlock_assets now assets id) xs v =
    settle-IsValid ttl (unlock_assets now assets id) id xs v
apply-IsValid ttl (reveal_configurations now confs id) xs v =
    settle-IsValid ttl (reveal_configurations now confs id) id xs v
