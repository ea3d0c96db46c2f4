-- ===== src/Entrypoint/Capture.antt =====
-- What `capture_http_request` of services/entrypoint/domain.py leaves in the stores of the binding service, of the
-- profiler and of the observations.
use honeypot_fyp.Prelude.{
  none, ℕ, suc, String, not, ◌&&◌, List, [], ◌∷◌, ◌++◌, some, is_empty, All, if◌then◌else◌, ◌==◌,
  string_eq, ◌≡◌, refl, sym, ◌∙◌, Bool-cases, inl, inr, append-nil,
}
use honeypot_fyp.Common.Dict.{get, last_of}
use honeypot_fyp.Common.Floats.{FloatOps}
use honeypot_fyp.Contracts.Entrypoint.{EntrypointCaptureRequest}
use honeypot_fyp.Contracts.Evidence.{TechniqueEvidence}
use honeypot_fyp.Binding.Service.{resolve}
use honeypot_fyp.Profiler.Tags.{AttackMapping}
use honeypot_fyp.Profiler.Events.{map_event, evidences_of}
use honeypot_fyp.Profiler.Profile.{evidence_ids, empty_snapshot}
use honeypot_fyp.Profiler.Service.{Profiler, State, found, list_by_attacker, get_profile, ingest}
use honeypot_fyp.Profiler.Coherent.{
  Call, evidences, list_by_attacker-ingest, get_profile-ingest_self,
}
use honeypot_fyp.Entrypoint.Hidden.{shown, lowered, redact_headers-shown}
use honeypot_fyp.Entrypoint.Service.{
  safe_headers, EntrypointService, World, Calls, rule_matches, ingest_request, profiled, observed,
  capture_http_request,
}

module _ {F : Type 0} ⦃ops : FloatOps F⦄ (service : EntrypointService F) (calls : Calls)
    (r : EntrypointCaptureRequest) where
  -- In the observation of a captured request, a name finds a value in the stored headers exactly if
  -- the lowered name of a header that the client sent is that name: [redacted] for authorization,
  -- cookie, proxy-authorization, set-cookie and x-api-key, and else the last value that was sent
  -- under it. So a secret header is hidden whatever the capitals of its name, by what lower gives
  -- for it.
  pub capture_http_request-headers :
      (w : World F) (name : String)
      → get name (capture_http_request service calls r w).0.observation.headers
        ≡ shown name (last_of name none (lowered service.texts.lower r.headers))
  unfolding capture_http_request observed safe_headers
  capture_http_request-headers w name = redact_headers-shown service.texts.lower name r.headers

module _ {F : Type 0} ⦃ops : FloatOps F⦄ (service : EntrypointService F) (p : Profiler F)
    (calls : Calls) (r : EntrypointCaptureRequest) where
  -- the call of the profiler, under a binding
  abbrev pub call : String → Call p
  call binding_id = record {
    now = calls.profiled_at;
    ids = calls.evidence_ids;
    request = ingest_request service calls r binding_id;
  }

  -- the evidence of the request: none where no rule matches
  abbrev pub new_evidence : String → List (TechniqueEvidence F)
  new_evidence binding_id =
      if is_empty (rule_matches service calls r) then [] else evidences p (call binding_id)

  abbrev pub IsOfBinding : String → TechniqueEvidence F → Type 0
  IsOfBinding binding_id e = (e.attacker_key ≡ r.attacker_key) × (e.binding_id ≡ binding_id)

  evidences_of-IsOfBinding :
      (id : String) (n : ℕ) (ms : List AttackMapping)
      → All (IsOfBinding id) (
          evidences_of p.python p.attack_catalog r.attacker_key id
            (ingest_request service calls r id).event
            calls.evidence_ids
            n
            ms)
  unfolding evidences_of
  evidences_of-IsOfBinding id n [] = tt
  evidences_of-IsOfBinding id n (m ∷ ms) = ((refl, refl), evidences_of-IsOfBinding id (suc n) ms)

  new_evidence-IsOfBinding : (id : String) → All (IsOfBinding id) (new_evidence id)
  unfolding map_event ingest_request
  new_evidence-IsOfBinding id = elim (Bool-cases (is_empty (rule_matches service calls r))) [
    | inl silent ↦ rw silent tt
    | inr fired ↦ rw fired (evidences_of-IsOfBinding id 0 _)
  ]

  module _ (served : service.profiler ≡ some p) where
    -- the service and its profiler, together
    served_profiled :
        (id : String) (s : State F)
        → profiled service calls r id s ≡ (
            let c = call id in
            let (response, s') = ingest p c.now c.ids c.request s in
            if is_empty (rule_matches service calls r)
            then (empty_snapshot calls.profiled_at r.attacker_key, [], s)
            else (response.profile, evidence_ids response.evidences, s'))
    unfolding profiled
    served_profiled id s = rw (served, profiled) refl

    list_by_attacker-profiled :
        (id j : String) (s : State F)
        → list_by_attacker j (profiled service calls r id s).2
          ≡ list_by_attacker j s ++ (if r.attacker_key == j then new_evidence id else [])
    unfolding ingest_request
    list_by_attacker-profiled id j s =
        rw (served_profiled id s) (elim (Bool-cases (is_empty (rule_matches service calls r))) [
          | inl silent ↦ elim (Bool-cases (r.attacker_key == j)) [
            | inl same ↦ rw (silent, same) (sym (append-nil (list_by_attacker j s)))
            | inr other ↦ rw (silent, other) (sym (append-nil (list_by_attacker j s)))
          ]
          | inr fired ↦ rw fired (list_by_attacker-ingest p (call id) j s)
        ])

    get_profile-profiled :
        (id j : String) (s : State F)
        → get_profile j (profiled service calls r id s).2 ≡ (
            if r.attacker_key == j && not (is_empty (rule_matches service calls r))
            then found (profiled service calls r id s).0
            else get_profile j s)
    unfolding ingest_request
    get_profile-profiled id j s =
        rw (served_profiled id s) (elim (Bool-cases (is_empty (rule_matches service calls r))) [
          | inl silent ↦ elim (Bool-cases (r.attacker_key == j)) [
            | inl same ↦ rw (silent, same) refl
            | inr other ↦ rw (silent, other) refl
          ]
          | inr fired ↦ elim (Bool-cases (r.attacker_key == j)) [
            | inl same ↦ rw (fired, same) (get_profile-ingest_self p (call id) j s ∙ rw same refl)
            | inr other ↦
                rw (fired, other) (get_profile-ingest_self p (call id) j s ∙ rw other refl)
          ]
        ])

    evidence_ids-profiled :
        (id : String) (s : State F)
        → (profiled service calls r id s).1 ≡ evidence_ids (new_evidence id)
    unfolding ingest ingest_request
    evidence_ids-profiled id s =
        rw (served_profiled id s) (elim (Bool-cases (is_empty (rule_matches service calls r))) [
          | inl silent ↦ rw (silent, evidence_ids) refl
          | inr fired ↦ rw fired refl
        ])

    -- With a profiler, a captured request appends its observation to those stored, under the
    -- binding that the response has. Where no rule matches, the stores of the profiler keep what
    -- they had; else the stored evidence of the attacker grows by the new evidence, which is of
    -- that attacker and binding, the stored profile of the attacker is that of the response, and
    -- every other attacker has what it had. The observation names exactly the ids of the new
    -- evidence.
    pub capture_http_request-stores :
        (w : World F) (j : String)
        → let (response, w') = capture_http_request service calls r w in
          let id = response.binding.binding_id in
          (w'.observations ≡ w.observations ++ response.observation ∷ [])
          × (response.observation.binding_id ≡ id)
          × (list_by_attacker j w'.profiles
              ≡ list_by_attacker j w.profiles
                ++ (if r.attacker_key == j then new_evidence id else []))
          × All (IsOfBinding id) (new_evidence id)
          × (response.observation.profiler_evidence_ids ≡ evidence_ids (new_evidence id))
          × (get_profile j w'.profiles ≡ (
              if r.attacker_key == j && not (is_empty (rule_matches service calls r))
              then found response.profile
              else get_profile j w.profiles))
    unfolding capture_http_request
    capture_http_request-stores w j =
        let (binding, _) =
          resolve service.session_ttl calls.resolved_at calls.binding_id r.attacker_key
            w.bindings in
        let id = binding.binding_id in
        (
          refl,
          refl,
          list_by_attacker-profiled id j w.profiles,
          new_evidence-IsOfBinding id,
          evidence_ids-profiled id w.profiles,
          get_profile-profiled id j w.profiles,
        )
