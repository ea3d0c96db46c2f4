-- ===== src/Profiler/Coherent.antt =====
-- Sequences of calls of `ProfilerService.ingest` of services/profiler/domain.py: the stored profile of an
-- attacker is always the snapshot of the stored evidence.
use honeypot_fyp.Prelude.{
  ℕ, String, false, List, [], ◌∷◌, ◌++◌, is_empty, if◌then◌else◌, ◌==◌, string_eq, beq_refl, ◌≡◌,
  refl, sym, ap, ◌∙◌, Bool-cases, inl, inr, eq_iff, append-nil, append_assoc,
}
use honeypot_fyp.Common.Dict.{get, get_or, get-put}
use honeypot_fyp.Common.Floats.{FloatOps}
use honeypot_fyp.Contracts.Assets.{ProfileSnapshot}
use honeypot_fyp.Contracts.Evidence.{TechniqueEvidence, EvidenceIngestRequest}
use honeypot_fyp.Profiler.Tags.{AttackMapping, derive_attack_mappings, mappings_from_tags}
use honeypot_fyp.Profiler.Events.{map_event, evidences_of}
use honeypot_fyp.Profiler.Profile.{rebuild, snapshot_at}
use honeypot_fyp.Profiler.Newest.{rebuild_nonempty}
use honeypot_fyp.Profiler.Service.{
  Profiler, State, Found, found, profile_not_found, add_many, list_by_attacker, upsert, get_profile,
  ingest,
}

module _ {F : Type 0} ⦃ops : FloatOps F⦄ (p : Profiler F) where
  -- A request, with what its call reads from the clock and from `uuid4`.
  pub record Call : Type 0 where
    pub now : ℕ
    pub ids : ℕ → String
    pub request : EvidenceIngestRequest F

  abbrev pub ingest_all : List Call → State F → State F
  ingest_all [] s = s
  ingest_all (c ∷ rest) s = ingest_all rest (ingest p c.now c.ids c.request s).1

  abbrev pub evidences : Call → List (TechniqueEvidence F)
  evidences c =
      map_event p.python p.attack_catalog c.request.attacker_key c.request.binding_id
        c.request.event c.ids

  -- The evidence of the calls for an attacker, in order.
  abbrev pub evidences_for : String → List Call → List (TechniqueEvidence F)
  evidences_for k [] = []
  evidences_for k (c ∷ rest) =
      (if c.request.attacker_key == k then evidences c else []) ++ evidences_for k rest

  -- What the profile store is to answer for an attacker, by the evidence.
  abbrev pub answer : ℕ → String → List (TechniqueEvidence F) → Found F
  answer now k es =
      if is_empty es then profile_not_found k else found (rebuild p.host p.chain_window now k es)

  derived-nonempty :
      (c : Call)
      → is_empty (derive_attack_mappings p.python.digits p.attack_catalog c.request.event) ≡ false
  unfolding derive_attack_mappings
  derived-nonempty c =
      let ms = mappings_from_tags p.python.digits p.attack_catalog c.request.event in
      elim (Bool-cases (is_empty ms)) [ inl none' ↦ rw none' refl | inr some' ↦ rw some' some' ]

  evidences-nonempty : (c : Call) → is_empty (evidences c) ≡ false
  unfolding map_event
  evidences-nonempty c = all_mapped 0 _ (derived-nonempty c)
    where
      all_mapped :
          (n : ℕ) (ms : List AttackMapping)
          → is_empty ms ≡ false
          → is_empty (
              evidences_of p.python p.attack_catalog c.request.attacker_key c.request.binding_id
                c.request.event c.ids n ms)
            ≡ false
      all_mapped n [] h = h
      all_mapped n (m ∷ ms) h = refl

  rebuild_now :
      (now now' : ℕ) (k : String) (es : List (TechniqueEvidence F))
      → is_empty es ≡ false
      → rebuild p.host p.chain_window now k es ≡ rebuild p.host p.chain_window now' k es
  unfolding rebuild
  rebuild_now now now' k es h =
      let (l, there, is) = rebuild_nonempty p.host p.chain_window now k es h in
      rw (there, rebuild) refl

  list_by_attacker-add_many :
      (j k : String) (new : List (TechniqueEvidence F)) (s : State F)
      → list_by_attacker k (add_many j new s) ≡ list_by_attacker k s ++ (if j == k then new else [])
  unfolding list_by_attacker add_many get_or
  list_by_attacker-add_many j k new s = elim (Bool-cases (j == k)) [
    | inl same ↦
        rw (get-put j k (get_or j s.records [] ++ new) s.records, same, get_or)
          (ap (λ i. get_or i s.records [] ++ new) ((eq_iff j k).0 same))
    | inr other ↦
        rw (get-put j k (get_or j s.records [] ++ new) s.records, other, get_or)
          (sym (append-nil (get_or k s.records [])))
  ]

  get_profile-upsert :
      (k : String) (snapshot : ProfileSnapshot F) (s : State F)
      → get_profile k (upsert snapshot s)
        ≡ (if snapshot.attacker_key == k then found snapshot else get_profile k s)
  unfolding upsert get_profile
  get_profile-upsert k snapshot s = elim (Bool-cases (snapshot.attacker_key == k)) [
    | inl same ↦ rw (get-put snapshot.attacker_key k snapshot s.profiles, same, get_profile) refl
    | inr other ↦ rw (get-put snapshot.attacker_key k snapshot s.profiles, other, get_profile) refl
  ]

  pub list_by_attacker-ingest :
      (c : Call) (k : String) (s : State F)
      → list_by_attacker k (ingest p c.now c.ids c.request s).1
        ≡ list_by_attacker k s ++ (if c.request.attacker_key == k then evidences c else [])
  unfolding ingest upsert list_by_attacker
  list_by_attacker-ingest c k s = list_by_attacker-add_many c.request.attacker_key k (evidences c) s

  rebuild_key :
      (now : ℕ) (k : String) (es : List (TechniqueEvidence F))
      → is_empty es ≡ false
      → (rebuild p.host p.chain_window now k es).attacker_key ≡ k
  unfolding snapshot_at
  rebuild_key now k es h =
      let (l, there, is) = rebuild_nonempty p.host p.chain_window now k es h in rw is refl

  append-nonempty :
      (es fs : List (TechniqueEvidence F)) → is_empty fs ≡ false → is_empty (es ++ fs) ≡ false
  append-nonempty [] fs h = h
  append-nonempty (e ∷ es) fs h = refl

  pub get_profile-ingest :
      (c : Call) (k : String) (s : State F)
      → get_profile k (ingest p c.now c.ids c.request s).1 ≡ (
          if c.request.attacker_key == k
          then answer c.now k (list_by_attacker k s ++ evidences c)
          else get_profile k s)
  unfolding ingest add_many get_profile
  get_profile-ingest c k s =
      let key = c.request.attacker_key in
      let es = list_by_attacker key s ++ evidences c in
      let more = append-nonempty (list_by_attacker key s) (evidences c) (evidences-nonempty c) in
      let snapshot = rebuild p.host p.chain_window c.now key es in
      let written : list_by_attacker key (add_many key (evidences c) s) ≡ es =
        rw (list_by_attacker-add_many key key (evidences c) s, beq_refl key) refl in
      ap
        (λ fs.
          get_profile k
            (upsert (rebuild p.host p.chain_window c.now key fs) (add_many key (evidences c) s)))
        written
      ∙ get_profile-upsert k snapshot (add_many key (evidences c) s)
      ∙ rw (rebuild_key c.now key es more) (elim (Bool-cases (key == k)) [
        | inl same ↦ rw (same, ← (eq_iff key k).0 same, more) refl
        | inr other ↦ rw other refl
      ])

  -- The snapshot of the answer is the stored one.
  pub get_profile-ingest_self :
      (c : Call) (k : String) (s : State F)
      → get_profile k (ingest p c.now c.ids c.request s).1 ≡ (
          if c.request.attacker_key == k
          then found (ingest p c.now c.ids c.request s).0.profile
          else get_profile k s)
  unfolding ingest
  get_profile-ingest_self c k s =
      let key = c.request.attacker_key in
      let more = append-nonempty (list_by_attacker key s) (evidences c) (evidences-nonempty c) in
      let kept = list_by_attacker-add_many key key (evidences c) s in
      get_profile-ingest c k s
      ∙ rw (kept, beq_refl key)
          (elim (Bool-cases (key == k)) [
            | inl same ↦ rw (same, ← (eq_iff key k).0 same, more) refl
            | inr other ↦ rw other refl
          ])

  -- The profile store answers by the evidence store.
  abbrev IsCoherent : State F → Type 0
  IsCoherent s = (now : ℕ) (k : String) → get_profile k s ≡ answer now k (list_by_attacker k s)

  ingest-IsCoherent :
      (c : Call) (s : State F) → IsCoherent s → IsCoherent (ingest p c.now c.ids c.request s).1
  ingest-IsCoherent c s h now k =
      let es = list_by_attacker k s ++ evidences c in
      let more = append-nonempty (list_by_attacker k s) (evidences c) (evidences-nonempty c) in
      rw (get_profile-ingest c k s, list_by_attacker-ingest c k s)
        (elim (Bool-cases (c.request.attacker_key == k)) [
          | inl same ↦ rw (same, more) (ap found (rebuild_now c.now now k es more))
          | inr other ↦ rw (other, append-nil (list_by_attacker k s)) (h now k)
        ])

  list_by_attacker-ingest_all :
      (calls : List Call) (k : String) (s : State F)
      → list_by_attacker k (ingest_all calls s) ≡ list_by_attacker k s ++ evidences_for k calls
  list_by_attacker-ingest_all [] k s = sym (append-nil (list_by_attacker k s))
  list_by_attacker-ingest_all (c ∷ rest) k s =
      list_by_attacker-ingest_all rest k (ingest p c.now c.ids c.request s).1
      ∙ rw (list_by_attacker-ingest c k s) (
          append_assoc (list_by_attacker k s)
            (if c.request.attacker_key == k then evidences c else []) (evidences_for k rest))

  ingest_all-IsCoherent :
      (calls : List Call) (s : State F) → IsCoherent s → IsCoherent (ingest_all calls s)
  ingest_all-IsCoherent [] s h = h
  ingest_all-IsCoherent (c ∷ rest) s h =
      ingest_all-IsCoherent rest (ingest p c.now c.ids c.request s).1 (ingest-IsCoherent c s h)

  abbrev pub empty_state : State F
  empty_state = record { records = []; profiles = [] }

  -- After any sequence of ingests from empty stores, the evidence stored for an attacker is that of
  -- the calls for that attacker, in order, and get_profile raises ProfileNotFoundError exactly if
  -- there is none, and else gives the snapshot that a rebuild makes of it.
  pub get_profile-ingest_all :
      (calls : List Call) (now : ℕ) (k : String)
      → (list_by_attacker k (ingest_all calls empty_state) ≡ evidences_for k calls)
        × (get_profile k (ingest_all calls empty_state) ≡ answer now k (evidences_for k calls))
  unfolding list_by_attacker get_profile get get_or
  get_profile-ingest_all calls now k =
      let kept = list_by_attacker-ingest_all calls k empty_state in
      (kept, ingest_all-IsCoherent calls empty_state (λ n j. refl) now k ∙ ap (answer now k) kept)
