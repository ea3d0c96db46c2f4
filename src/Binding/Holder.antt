-- ===== src/Binding/Holder.antt =====
-- Which binding an attacker holds, across the calls of services/binding_service/domain.py.
use honeypot_fyp.Prelude.{
  ℕ, String, Bool, false, Option, none, some, ◌≡◌, inl, inr, refl, ap, ◌∙◌, ◌==◌, string_eq, member,
  leb, Bool-cases, any, All-map,
}
use honeypot_fyp.Contracts.Bindings.{BindingRecord}
use honeypot_fyp.Binding.Repository.{Records, get_by_attacker, upsert, same_id}
use honeypot_fyp.Binding.Service
use honeypot_fyp.Binding.Service.{resolved, modify, beaten, put_away, unlocked, configured}
use honeypot_fyp.Binding.Lookup.{ids, get_by_attacker-upsert, member-false, member-ids-any}
use honeypot_fyp.Binding.Current.{
  found_by_binding, found_by_attacker, get_by_attacker-rewrite, id_of, id_of-substitute,
}
use honeypot_fyp.Binding.Invariant.{
  Command, resolve, heartbeat, recycle, unlock_assets, reveal_configurations, settle, change, apply,
  IsFresh, IsValid, settle_modify,
}
use honeypot_fyp.Binding.Extends.{change-Extends}

-- Whether a call resolves the attacker.
abbrev pub resolves : String → Command → Bool
resolves a (resolve now uuid b) = b == a
resolves a _ = false

settle_current :
    (ttl : ℕ) (c : Command) (id a : String) (xs : Records)
    → IsValid xs
    → id_of (get_by_attacker a (settle xs (modify (change ttl c) id xs)))
      ≡ id_of (get_by_attacker a xs)
settle_current ttl c id a xs v =
    settle_modify (λ ys. id_of (get_by_attacker a ys) ≡ id_of (get_by_attacker a xs)) (change ttl c)
      id xs refl
      λ r found.
        let e = change-Extends ttl c r in
        ap id_of (
          get_by_attacker-rewrite r (change ttl c r) xs v.distinct
            (found_by_binding id xs r found).0 e.id e.attacker a)
        ∙ id_of-substitute (change ttl c r) (get_by_attacker a xs)

new_other :
    (s : BindingRecord) (a : String) (xs : Records)
    → IsValid xs
    → member s.binding_id (ids xs) ≡ false
    → (s.attacker_key == a) ≡ false
    → get_by_attacker a (upsert s xs).1 ≡ get_by_attacker a xs
new_other s a xs v new other =
    let missing : any (same_id s) xs ≡ false = member-ids-any s xs ∙ new in
    rw (
      get_by_attacker-upsert s a xs v.distinct (
          All-map _ _ xs (λ x e p. ap (λ (y : BindingRecord). y.attacker_key) (e p))
            (member-false s s.binding_id xs new)),
      missing,
      other,
    )

resolve_other :
    (ttl now : ℕ) (uuid b a : String) (xs : Records)
    → IsValid xs
    → member uuid (ids xs) ≡ false
    → (b == a) ≡ false
    → (o : Option BindingRecord) → get_by_attacker b xs ≡ o
    → id_of (get_by_attacker a (upsert (resolved ttl now uuid b o) xs).1)
      ≡ id_of (get_by_attacker a xs)
unfolding resolved
resolve_other ttl now uuid b a xs v new other none h = ap id_of (new_other _ a xs v new other)
resolve_other ttl now uuid b a xs v new other (some r) h =
    elim (Bool-cases (leb now r.ttl_expires_at)) [
      | inl alive ↦ rw alive (
          ap id_of (
            get_by_attacker-rewrite r _ xs v.distinct (found_by_attacker b xs r v.distinct h).0 refl
              refl a)
          ∙ id_of-substitute _ (get_by_attacker a xs))
      | inr expired ↦ rw expired (ap id_of (new_other _ a xs v new other))
    ]

-- On valid records and with a fresh uuid, a call of BindingService that is not a resolve of an
-- attacker does not change which binding is current for that attacker.
pub current_binding_stable :
    (ttl : ℕ) (c : Command) (a : String) (xs : Records)
    → IsValid xs
    → IsFresh c xs
    → resolves a c ≡ false
    → id_of (get_by_attacker a (apply ttl c xs)) ≡ id_of (get_by_attacker a xs)
unfolding apply Service.resolve Service.heartbeat Service.recycle Service.unlock_assets
    Service.reveal_configurations
current_binding_stable ttl (resolve now uuid b) a xs v new other =
    resolve_other ttl now uuid b a xs v new other (get_by_attacker b xs) refl
current_binding_stable ttl (heartbeat ts id) a xs v new other =
    settle_current ttl (heartbeat ts id) id a xs v
current_binding_stable ttl (recycle now mode id) a xs v new other =
    settle_current ttl (recycle now mode id) id a xs v
current_binding_stable ttl (unlock_assets now assets id) a xs v new other =
    settle_current ttl (unlock_assets now assets id) id a xs v
current_binding_stable ttl (reveal_configurations now confs id) a xs v new other =
    settle_current ttl (reveal_configurations now confs id) id a xs v
