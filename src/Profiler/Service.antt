-- ===== src/Profiler/Service.antt =====
-- `ProfilerService` of services/profiler/domain.py over the two stores of services/profiler/repository.py.
-- A store is the object that its JSON document keeps: the evidence of an attacker, and the profile.
-- How the document is written is Common.JsonStore.
use honeypot_fyp.Prelude.{ℕ, String, List, [], ◌++◌, none, some}
use honeypot_fyp.Common.Dict.{Dict, get, get_or, put}
use honeypot_fyp.Common.Floats.{FloatOps}
use honeypot_fyp.Common.Json.{Host}
use honeypot_fyp.Contracts.Assets.{ProfileSnapshot}
use honeypot_fyp.Contracts.Evidence.{
  TechniqueEvidence, EvidenceIngestRequest, EvidenceIngestResponse,
}
use honeypot_fyp.Profiler.Tags.{AttackCatalog}
use honeypot_fyp.Profiler.Events.{Python, map_event}
use honeypot_fyp.Profiler.Profile.{rebuild}

pub record Profiler (F : Type 0) : Type 0 where
  pub host : Host F
  pub python : Python
  pub attack_catalog : AttackCatalog
  pub chain_window : ℕ

pub record State (F : Type 0) : Type 0 where
  pub records : Dict (List (TechniqueEvidence F))
  pub profiles : Dict (ProfileSnapshot F)

pub data Found (F : Type 0) : Type 0 where
  found : ProfileSnapshot F → Found F
  profile_not_found : String → Found F

module _ {F : Type 0} where
  -- `FileEvidenceRepository.add_many` and `.list_by_attacker`
  unfoldable pub add_many : String → List (TechniqueEvidence F) → State F → State F
  unfolding get_or put
  add_many attacker_key evidences s = record s {
    records = put attacker_key (get_or attacker_key s.records [] ++ evidences) s.records;
  }

  unfoldable pub list_by_attacker : String → State F → List (TechniqueEvidence F)
  unfolding get_or
  list_by_attacker attacker_key s = get_or attacker_key s.records []

  -- `FileProfileRepository.upsert`
  unfoldable pub upsert : ProfileSnapshot F → State F → State F
  unfolding put
  upsert snapshot s = record s { profiles = put snapshot.attacker_key snapshot s.profiles }

  -- `get_profile`
  unfoldable pub get_profile : String → State F → Found F
  unfolding get
  get_profile attacker_key s = elim (get attacker_key s.profiles) [
    | some snapshot ↦ found snapshot
    | none ↦ profile_not_found attacker_key
  ]

module _ {F : Type 0} ⦃ops : FloatOps F⦄ (p : Profiler F) where
  -- `_rebuild_profile`
  unfoldable pub rebuild_profile : ℕ → String → State F → ProfileSnapshot F × State F
  unfolding list_by_attacker upsert rebuild
  rebuild_profile now attacker_key s =
      let snapshot =
        rebuild p.host p.chain_window now attacker_key (list_by_attacker attacker_key s) in
      (snapshot, upsert snapshot s)

  -- `ids` are the calls of `uuid4`, `now` is the clock of a snapshot without evidence
  unfoldable pub ingest :
      ℕ → (ℕ → String) → EvidenceIngestRequest F → State F → EvidenceIngestResponse F × State F
  unfolding map_event add_many rebuild_profile
  ingest now ids request s =
      let evidences =
        map_event p.python p.attack_catalog request.attacker_key request.binding_id request.event
          ids in
      let (snapshot, s') =
        rebuild_profile now request.attacker_key (add_many request.attacker_key evidences s) in
      (
        record {
          attacker_key = request.attacker_key;
          binding_id = request.binding_id;
          evidences = evidences;
          profile = snapshot;
        },
        s',
      )
