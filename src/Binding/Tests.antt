-- ===== src/Binding/Tests.antt =====
-- Calls at concrete records: the theorems where their hypotheses hold, and runs.
use honeypot_fyp.Prelude.{String, List, [], ◌∷◌, some, ◌≡◌, refl, arith, ◌||◌, string_eq}
use honeypot_fyp.Common.Dict.{Dict, get_or, of_pairs, get, put}
use honeypot_fyp.Contracts.Bindings.{BindingRecord, active, recovered, idle_mode, hard_mode}
use honeypot_fyp.Binding.Repository.{Records, get_by_binding, get_by_attacker, upsert}
use honeypot_fyp.Binding.Service
use honeypot_fyp.Binding.Service.{ok, put_away, unlocked, configured}
use honeypot_fyp.Binding.Sticky.{resolve_sticky, resolve_expired, resolve-recycle}
use honeypot_fyp.Binding.Unlocks.{IsWellFormed, reveals, asks, revealed_configurations_exact}
use honeypot_fyp.Binding.Invariant.{Command, apply, IsValid}
use honeypot_fyp.Binding.History.{Reach, here, next, Kept, Reach-IsValid, Reach-Kept}
use honeypot_fyp.Binding.Current.{id_of}
use honeypot_fyp.Binding.Holder.{current_binding_stable}

program : Unit {0}
unfolding Service.resolve Service.recycle Service.unlock_assets get_by_binding get_by_attacker
    upsert get_or of_pairs get put
program = tt

abbrev first : BindingRecord
first = record {
  binding_id = "b-1";
  attacker_key = "198.51.100.10";
  backend_instance_id = "ns-b-1";
  status = active;
  first_seen_ts = 100;
  last_seen_ts = 100;
  ttl_expires_at = 700;
  volume_ref = some "vol-b-1";
  unlocked_assets = "internal-portal" ∷ [];
  revealed_configurations = [];
}

abbrev other : BindingRecord
other = record first {
  binding_id = "b-2";
  attacker_key = "198.51.100.11";
  unlocked_assets = "git-internal" ∷ "ops-db" ∷ [];
}

abbrev stored : Records
stored = first ∷ other ∷ []

resume :
    (Service.resolve 600 200 "b-3" "198.51.100.10" stored).0
    ≡ record first { last_seen_ts = 200; ttl_expires_at = 800 }
unfolding program
resume = refl

replace_expired : (Service.resolve 600 701 "b-3" "198.51.100.10" stored).0.binding_id ≡ "b-3"
unfolding program
replace_expired = refl

first-IsWellFormed : IsWellFormed first
unfolding get_or
first-IsWellFormed = record { assets = (refl, tt); buckets = λ a. tt; bucket_keys = tt }

stored-IsValid : IsValid stored
unfolding get_or
stored-IsValid = record {
  distinct = (refl, (refl, tt));
  formed = (
    first-IsWellFormed,
    (record { assets = (refl, (refl, tt)); buckets = λ a. tt; bucket_keys = tt }, tt),
  );
}

resolve_sticky_example :
    let (r, ys) = Service.resolve 600 200 "b-3" "198.51.100.10" stored in
    let r' = (Service.resolve 600 750 "b-4" "198.51.100.10" ys).0 in
    (r'.binding_id ≡ r.binding_id)
    × (r'.backend_instance_id ≡ r.backend_instance_id)
    × (r'.unlocked_assets ≡ r.unlocked_assets)
    × (r'.revealed_configurations ≡ r.revealed_configurations)
    × (r'.status ≡ active)
unfolding program
resolve_sticky_example =
    resolve_sticky 600 200 750 "b-3" "b-4" "198.51.100.10" stored (refl, (refl, tt)) refl
      (omega arith)

resolve_expired_example :
    let (r', ys) = Service.resolve 600 701 "b-3" "198.51.100.10" stored in
    (r'.binding_id ≡ "b-3")
    × (r'.status ≡ active)
    × (r'.unlocked_assets ≡ [])
    × (get_by_binding "b-1" ys ≡ some first)
unfolding program
resolve_expired_example =
    resolve_expired 600 701 "b-3" "198.51.100.10" stored first (refl, (refl, tt)) refl refl
      (omega arith)

resolve-recycle_example :
    let idled = (upsert (put_away 600 200 idle_mode first) stored).1 in
    let ended = (upsert (put_away 600 200 hard_mode first) stored).1 in
    let back = (Service.resolve 600 300 "b-3" "198.51.100.10" idled).0 in
    (Service.recycle 600 200 idle_mode "b-1" stored ≡ ok (put_away 600 200 idle_mode first, idled))
    × (Service.recycle 600 200 hard_mode "b-1" stored
        ≡ ok (put_away 600 200 hard_mode first, ended))
    × (back.binding_id ≡ "b-1")
    × (back.unlocked_assets ≡ "internal-portal" ∷ [])
    × (back.status ≡ recovered)
    × ((Service.resolve 600 300 "b-3" "198.51.100.10" ended).0.binding_id ≡ "b-3")
unfolding program
resolve-recycle_example =
    resolve-recycle 600 200 300 "b-3" "198.51.100.10" stored first (refl, (refl, tt)) refl
      (omega arith) (omega arith)

abbrev clue : Dict (List String)
clue = ("git-internal", "git-db-credential-clue" ∷ []) ∷ []

revealed_configurations_exact_example :
    ((a c : String)
      → reveals a c (configured 200 clue first).revealed_configurations
        ≡ (reveals a c first.revealed_configurations || asks a c clue))
    × IsWellFormed (configured 200 clue first)
revealed_configurations_exact_example =
    revealed_configurations_exact 200 clue first first-IsWellFormed

abbrev calls : Records → Records
calls xs =
    apply 600 (Command.unlock_assets 300 ("git-internal" ∷ []) "b-1")
      (apply 600 (Command.resolve 200 "b-3" "198.51.100.12") xs)

reached : Reach 600 stored (calls stored)
reached =
    next (next here (Command.resolve 200 "b-3" "198.51.100.12") refl)
      (Command.unlock_assets 300 ("git-internal" ∷ []) "b-1") tt

Reach-IsValid_example : IsValid (calls stored)
Reach-IsValid_example = Reach-IsValid 600 stored-IsValid reached

Reach-Kept_example : Kept "b-2" other (calls stored)
unfolding program
Reach-Kept_example = Reach-Kept 600 "b-2" other stored-IsValid refl reached

current_binding_stable_example :
    id_of (
      get_by_attacker "198.51.100.10"
        (apply 600 (Command.resolve 200 "b-3" "198.51.100.12") stored))
    ≡ id_of (get_by_attacker "198.51.100.10" stored)
current_binding_stable_example =
    current_binding_stable 600 (Command.resolve 200 "b-3" "198.51.100.12") "198.51.100.10" stored
      stored-IsValid refl refl
