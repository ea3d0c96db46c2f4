-- ===== src/Binding/History.antt =====
-- What no sequence of calls of services/binding_service/domain.py undoes.
use honeypot_fyp.Prelude.{
  ℕ, String, false, Option, none, some, ◌≡◌, inl, inr, refl, ap, sym, ◌∙◌, eq_iff, ◌==◌, string_eq,
  member, leb, Bool-cases,
}
use honeypot_fyp.Contracts.Bindings.{BindingRecord}
use honeypot_fyp.Binding.Repository.{Records, get_by_attacker, get_by_binding, upsert}
use honeypot_fyp.Binding.Service
use honeypot_fyp.Binding.Service.{resolved, modify, beaten, put_away, unlocked, configured}
use honeypot_fyp.Binding.Lookup.{ids, get_by_binding-upsert, In-member}
use honeypot_fyp.Binding.Current.{found_by_binding, found_by_attacker, get_by_binding-In}
use honeypot_fyp.Binding.Invariant.{
  Command, resolve, heartbeat, recycle, unlock_assets, reveal_configurations, settle, change, apply,
  IsFresh, IsValid, settle_modify, apply-IsValid,
}
use honeypot_fyp.Binding.Extends.{Extends, Extends-refl, Extends-trans, change-Extends}

abbrev pub Kept : String → BindingRecord → Records → Type 0
Kept k r ys = (s : BindingRecord) × (get_by_binding k ys ≡ some s) × Extends r s

Kept-upsert :
    (k : String) (r s : BindingRecord) (xs : Records)
    → get_by_binding k xs ≡ some r
    → (s.binding_id ≡ k → Extends r s)
    → Kept k r (upsert s xs).1
Kept-upsert k r s xs found extends = elim (Bool-cases (s.binding_id == k)) [
  | inl same ↦ (s, get_by_binding-upsert s k xs ∙ rw same, extends ((eq_iff s.binding_id k).0 same))
  | inr other ↦ (r, get_by_binding-upsert s k xs ∙ rw other found, Extends-refl r)
]

one_found :
    (id k : String) (xs : Records) (s r : BindingRecord)
    → get_by_binding id xs ≡ some s
    → get_by_binding k xs ≡ some r
    → s.binding_id ≡ k
    → r ≡ s
one_found id k xs s r there found e =
    let at_id : s.binding_id ≡ id = (found_by_binding id xs s there).1 in
    let at_k : get_by_binding k xs ≡ some s =
      ap (λ j. get_by_binding j xs) (sym e ∙ at_id) ∙ there in
    cc (found, at_k)

-- A new id is not that of a stored record.
not_stored :
    (uuid k : String) (r : BindingRecord) (xs : Records)
    → member uuid (ids xs) ≡ false
    → get_by_binding k xs ≡ some r
    → uuid ≡ k
    → ⊥
not_stored uuid k r xs new found e =
    let (there, at_k) = found_by_binding k xs r found in
    cc (new, In-member r xs there, ap (λ j. member j (ids xs)) (e ∙ sym at_k))

settle-Kept :
    (ttl : ℕ) (c : Command) (id k : String) (r : BindingRecord) (xs : Records)
    → get_by_binding k xs ≡ some r
    → Kept k r (settle xs (modify (change ttl c) id xs))
settle-Kept ttl c id k r xs found =
    settle_modify (Kept k r) (change ttl c) id xs (r, found, Extends-refl r)
      λ s there. Kept-upsert k r (change ttl c s) xs found λ e.
        let same = one_found id k xs s r there found (sym (change-Extends ttl c s).id ∙ e) in
        rw same (change-Extends ttl c s)

resolved-Kept :
    (ttl now : ℕ) (uuid a k : String) (r : BindingRecord) (xs : Records)
    → IsValid xs
    → member uuid (ids xs) ≡ false
    → get_by_binding k xs ≡ some r
    → (o : Option BindingRecord) → get_by_attacker a xs ≡ o
    → (resolved ttl now uuid a o).binding_id ≡ k
    → Extends r (resolved ttl now uuid a o)
unfolding resolved
resolved-Kept ttl now uuid a k r xs v new found none h e =
    absurd (not_stored uuid k r xs new found e)
resolved-Kept ttl now uuid a k r xs v new found (some s) h e =
    elim (Bool-cases (leb now s.ttl_expires_at)) [
      | inl alive ↦
          let there = (found_by_attacker a xs s v.distinct h).0 in
          let same =
            one_found s.binding_id k xs s r (get_by_binding-In s xs v.distinct there) found
              (rw alive at e) in
          rw (same, alive)
            (record {
              id = refl;
              attacker = refl;
              backend = refl;
              first_seen = refl;
              assets = λ a h. h;
              configurations = λ a c h. h;
            })
      | inr expired ↦ absurd (not_stored uuid k r xs new found (rw expired at e))
    ]

-- A stored binding is found after any call, with all that it had.
apply-Kept :
    (ttl : ℕ) (c : Command) (k : String) (r : BindingRecord) (xs : Records)
    → IsValid xs
    → IsFresh c xs
    → get_by_binding k xs ≡ some r
    → Kept k r (apply ttl c xs)
unfolding apply Service.resolve Service.heartbeat Service.recycle Service.unlock_assets
    Service.reveal_configurations
apply-Kept ttl (resolve now uuid a) k r xs v new found =
    Kept-upsert k r _ xs found
      (resolved-Kept ttl now uuid a k r xs v new found (get_by_attacker a xs) refl)
apply-Kept ttl (heartbeat ts id) k r xs v new found =
    settle-Kept ttl (heartbeat ts id) id k r xs found
apply-Kept ttl (recycle now mode id) k r xs v new found =
    settle-Kept ttl (recycle now mode id) id k r xs found
apply-Kept ttl (unlock_assets now assets id) k r xs v new found =
    settle-Kept ttl (unlock_assets now assets id) id k r xs found
apply-Kept ttl (reveal_configurations now confs id) k r xs v new found =
    settle-Kept ttl (reveal_configurations now confs id) id k r xs found

-- The states that calls lead to.
pub data Reach (ttl : ℕ) (xs : Records) : Records → Type 0 where
  here : Reach ttl xs xs
  next :
      {ys : Records}
      → Reach ttl xs ys
      → (c : Command) → IsFresh c ys
      → Reach ttl xs (apply ttl c ys)

-- From valid records, over any sequence of calls with fresh uuids, the ids of the records stay
-- different and no record repeats an asset or a configuration.
pub Reach-IsValid : (ttl : ℕ) {xs ys : Records} → IsValid xs → Reach ttl xs ys → IsValid ys
Reach-IsValid ttl v here = v
Reach-IsValid ttl v (next {ys} reached c fresh) =
    apply-IsValid ttl c ys (Reach-IsValid ttl v reached)

-- From valid records, over any sequence of calls a binding that is stored keeps its id, attacker,
-- backend and first contact, and each asset and configuration once opened stays opened.
pub Reach-Kept :
    (ttl : ℕ) (k : String) (r : BindingRecord) {xs ys : Records}
    → IsValid xs
    → get_by_binding k xs ≡ some r
    → Reach ttl xs ys
    → Kept k r ys
Reach-Kept ttl k r v found here = (r, found, Extends-refl r)
Reach-Kept ttl k r v found (next {ys} reached c fresh) =
    let (s, there, extends) = Reach-Kept ttl k r v found reached in
    let (t, after, further) = apply-Kept ttl c k s ys (Reach-IsValid ttl v reached) fresh there in
    (t, after, Extends-trans extends further)
