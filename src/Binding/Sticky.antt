-- ===== src/Binding/Sticky.antt =====
-- Bindings are sticky: which binding an attacker gets from `resolve` of
-- services/binding_service/domain.py.
use honeypot_fyp.Prelude.{
  ℕ, ◌+◌, ◌≤◌, ◌<◌, String, false, [], Option, none, some, any, ◌≡◌, inl, inr, refl, ap, ◌∙◌, arith,
  eq_iff, string_eq, Distinct, member, Bool-cases, leb, le→leb, lt→leb, All-map,
}
use honeypot_fyp.Contracts.Bindings.{
  BindingStatus, BindingRecord, RecycleMode, active, recovered, idle_mode, hard_mode,
}
use honeypot_fyp.Binding.Repository.{Records, get_by_attacker, get_by_binding, same_id, upsert}
use honeypot_fyp.Binding.Service.{
  ok, resolved, resolve, put_away, recycle, resumed_status, modify_found,
}
use honeypot_fyp.Binding.Lookup.{
  ids, In, get_by_attacker-upsert, get_by_binding-upsert, member-ids-any, member-false, In-member,
}
use honeypot_fyp.Binding.Current.{found_by_attacker, get_by_binding-In, rewrite_is_current}

-- A record of a new id is the current one of its attacker.
new_is_current :
    (s : BindingRecord) (xs : Records)
    → Distinct (ids xs)
    → member s.binding_id (ids xs) ≡ false
    → get_by_attacker s.attacker_key (upsert s xs).1 ≡ some s
new_is_current s xs d new =
    let missing : any (same_id s) xs ≡ false = member-ids-any s xs ∙ new in
    rw
      (
        get_by_attacker-upsert s s.attacker_key xs d (
            All-map _ _ xs (λ x e p. ap (λ (y : BindingRecord). y.attacker_key) (e p))
              (member-false s s.binding_id xs new)),
        missing,
      )
      (ground (arith, eq_iff s.attacker_key s.attacker_key))

module _ (ttl now : ℕ) (uuid a : String) (xs : Records) (d : Distinct (ids xs))
    (new : member uuid (ids xs) ≡ false) where
  current_of :
      (o : Option BindingRecord)
      → get_by_attacker a xs ≡ o
      → get_by_attacker a (upsert (resolved ttl now uuid a o) xs).1
        ≡ some (resolved ttl now uuid a o)
  unfolding resolved
  current_of none h = new_is_current _ xs d new
  current_of (some r) h = elim (Bool-cases (leb now r.ttl_expires_at)) [
    | inl alive ↦ rw alive (rewrite_is_current r _ a xs d h refl refl)
    | inr expired ↦ rw expired (new_is_current _ xs d new)
  ]

  -- What `resolve` returns is what the attacker's next look-up finds.
  pub resolve_is_current :
      get_by_attacker a (resolve ttl now uuid a xs).1 ≡ some (resolve ttl now uuid a xs).0
  unfolding resolve upsert
  resolve_is_current = current_of (get_by_attacker a xs) refl

resumed_twice : (status : BindingStatus) → resumed_status (resumed_status status) ≡ active
resumed_twice status = ground arith

resolved_resumes :
    (ttl now : ℕ) (uuid a : String) (o : Option BindingRecord)
    → resumed_status (resolved ttl now uuid a o).status ≡ active
unfolding resolved
resolved_resumes ttl now uuid a none = refl
resolved_resumes ttl now uuid a (some r) = elim (Bool-cases (leb now r.ttl_expires_at)) [
  | inl alive ↦ rw alive (resumed_twice r.status)
  | inr expired ↦ rw expired
]

-- A live binding that is found is resumed.
resumes :
    (ttl later : ℕ) (other a : String) (ys : Records) (r : BindingRecord)
    → get_by_attacker a ys ≡ some r
    → later ≤ r.ttl_expires_at
    → let r' = (resolve ttl later other a ys).0 in
      (r'.binding_id ≡ r.binding_id)
      × (r'.backend_instance_id ≡ r.backend_instance_id)
      × (r'.unlocked_assets ≡ r.unlocked_assets)
      × (r'.revealed_configurations ≡ r.revealed_configurations)
      × (r'.status ≡ resumed_status r.status)
unfolding resolve upsert
resumes ttl later other a ys r found alive =
    rw (found, resolved, le→leb later r.ttl_expires_at alive) (refl, refl, refl, refl, refl)

-- On records with different ids and a fresh uuid, a second resolve of an attacker no later than the
-- expiry that the first one set returns the same binding, backend, unlocked assets and revealed
-- configurations, with the status active.
pub resolve_sticky :
    (ttl now later : ℕ) (uuid other a : String) (xs : Records)
    → Distinct (ids xs)
    → member uuid (ids xs) ≡ false
    → later ≤ (resolve ttl now uuid a xs).0.ttl_expires_at
    → let (r, ys) = resolve ttl now uuid a xs in
      let r' = (resolve ttl later other a ys).0 in
      (r'.binding_id ≡ r.binding_id)
      × (r'.backend_instance_id ≡ r.backend_instance_id)
      × (r'.unlocked_assets ≡ r.unlocked_assets)
      × (r'.revealed_configurations ≡ r.revealed_configurations)
      × (r'.status ≡ active)
resolve_sticky ttl now later uuid other a xs d new h =
    let (r, ys) = resolve ttl now uuid a xs in
    let (same_binding, same_backend, same_assets, same_configurations, status) =
      resumes ttl later other a ys r (resolve_is_current ttl now uuid a xs d new) h in
    (
      same_binding,
      same_backend,
      same_assets,
      same_configurations,
      status ∙ unfold resolve upsert in resolved_resumes ttl now uuid a (get_by_attacker a xs),
    )

-- A record of a new id leaves the others where they were found.
new_keeps :
    (s r : BindingRecord) (xs : Records)
    → Distinct (ids xs)
    → member s.binding_id (ids xs) ≡ false
    → In r xs
    → get_by_binding r.binding_id (upsert s xs).1 ≡ some r
new_keeps s r xs d new there = ground (
  arith,
  get_by_binding-upsert s r.binding_id xs,
  get_by_binding-In r xs d there,
  In-member r xs there,
  eq_iff s.binding_id r.binding_id,
)

-- On records with different ids and a fresh uuid, a resolve strictly after the expiry of the
-- current binding gives a new active binding with nothing unlocked, and the old record stays stored
-- unchanged.
pub resolve_expired :
    (ttl now : ℕ) (uuid a : String) (xs : Records) (r : BindingRecord)
    → Distinct (ids xs)
    → member uuid (ids xs) ≡ false
    → get_by_attacker a xs ≡ some r
    → r.ttl_expires_at < now
    → let (r', ys) = resolve ttl now uuid a xs in
      (r'.binding_id ≡ uuid)
      × (r'.status ≡ active)
      × (r'.unlocked_assets ≡ [])
      × (get_by_binding r.binding_id ys ≡ some r)
unfolding resolve resolved upsert
resolve_expired ttl now uuid a xs r d new found late =
    let there = (found_by_attacker a xs r d found).0 in
    rw (found, lt→leb now r.ttl_expires_at late) (refl, refl, refl, new_keeps _ r xs d new there)

put_away-id :
    (ttl now : ℕ) (mode : RecycleMode) (r : BindingRecord)
    → (put_away ttl now mode r).binding_id ≡ r.binding_id
unfolding put_away
put_away-id ttl now idle_mode r = refl
put_away-id ttl now hard_mode r = refl

put_away-attacker :
    (ttl now : ℕ) (mode : RecycleMode) (r : BindingRecord)
    → (put_away ttl now mode r).attacker_key ≡ r.attacker_key
unfolding put_away
put_away-attacker ttl now idle_mode r = refl
put_away-attacker ttl now hard_mode r = refl

-- What `recycle` stores is what the attacker's next look-up finds.
recycle_is_current :
    (ttl now : ℕ) (mode : RecycleMode) (a : String) (xs : Records) (r : BindingRecord)
    → Distinct (ids xs)
    → get_by_attacker a xs ≡ some r
    → (recycle ttl now mode r.binding_id xs ≡ ok (upsert (put_away ttl now mode r) xs))
      × (get_by_attacker a (upsert (put_away ttl now mode r) xs).1 ≡ some (put_away ttl now mode r))
unfolding recycle
recycle_is_current ttl now mode a xs r d found =
    let (there, key) = found_by_attacker a xs r d found in
    (
      modify_found (put_away ttl now mode) r.binding_id xs r (get_by_binding-In r xs d there),
      rewrite_is_current r (put_away ttl now mode r) a xs d found (put_away-id ttl now mode r)
          (put_away-attacker ttl now mode r),
    )

-- On records with different ids, a recycle stores the binding put away. After an idle one a resolve
-- strictly later, no later than the time to live, gets the binding back, recovered and with what
-- was unlocked; after a hard one a resolve at any such time gets the new binding.
pub resolve-recycle :
    (ttl now later : ℕ) (uuid a : String) (xs : Records) (r : BindingRecord)
    → Distinct (ids xs)
    → get_by_attacker a xs ≡ some r
    → now < later
    → later ≤ now + ttl
    → let idled = (upsert (put_away ttl now idle_mode r) xs).1 in
      let ended = (upsert (put_away ttl now hard_mode r) xs).1 in
      let back = (resolve ttl later uuid a idled).0 in
      (recycle ttl now idle_mode r.binding_id xs ≡ ok (put_away ttl now idle_mode r, idled))
      × (recycle ttl now hard_mode r.binding_id xs ≡ ok (put_away ttl now hard_mode r, ended))
      × (back.binding_id ≡ r.binding_id)
      × (back.unlocked_assets ≡ r.unlocked_assets)
      × (back.status ≡ recovered)
      × ((resolve ttl later uuid a ended).0.binding_id ≡ uuid)
unfolding upsert
resolve-recycle ttl now later uuid a xs r d found past alive =
    let (idle_runs, idle_current) = recycle_is_current ttl now idle_mode a xs r d found in
    let (hard_runs, hard_current) = recycle_is_current ttl now hard_mode a xs r d found in
    let back = resumes ttl later uuid a _ _ idle_current (unfold put_away in alive) in
    (
      idle_runs,
      hard_runs,
      back.0 ∙ put_away-id ttl now idle_mode r,
      back.2 ∙ unfold put_away in refl,
      back.4 ∙ unfold put_away in refl,
      unfold resolve resolved upsert put_away in rw (hard_current, lt→leb later now past),
    )
