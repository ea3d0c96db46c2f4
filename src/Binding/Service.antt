-- ===== src/Binding/Service.antt =====
-- services/binding_service/domain.py: `BindingService`. A method takes what it reads from the clock
-- (`now`) and from `uuid4` (`binding_id`), and returns its result beside the new records; one that
-- looks a binding up by its id may raise.
use honeypot_fyp.Prelude.{
  ℕ, ◌+◌, String, List, [], ◌∷◌, Option, none, some, leb, if◌then◌else◌, add_all, ◌≡◌, ap,
  string_eq,
}
use Prim.Native.String.{◌++◌ as concat}
use honeypot_fyp.Common.Dict.{Dict, get_or, put}
use honeypot_fyp.Common.Text.{prefix}
use honeypot_fyp.Contracts.Bindings.{
  BindingStatus, active, recycled, recovered, is_recycled, BindingRecord, RecycleMode, idle_mode,
  hard_mode,
}
use honeypot_fyp.Binding.Repository.{Records, get_by_attacker, get_by_binding, upsert}

pub data Outcome (A : Type 0) : Type 0 where
  ok : A → Outcome A
  binding_not_found : String → Outcome A

infixl 5 ◌>>=◌
abbrev pub ◌>>=◌ : {A B : Type 0} → Outcome A → (A → Outcome B) → Outcome B
ok a >>= f = f a
binding_not_found id >>= f = binding_not_found id

-- the status of a binding that is resumed
abbrev pub resumed_status : BindingStatus → BindingStatus
resumed_status status = if is_recycled status then recovered else active

refresh : ℕ → ℕ → BindingRecord → BindingRecord
refresh ttl now existing = record existing {
  status = resumed_status existing.status;
  last_seen_ts = now;
  ttl_expires_at = now + ttl;
}

fresh : ℕ → ℕ → String → String → BindingRecord
fresh ttl now binding_id attacker_key = record {
  binding_id = binding_id;
  attacker_key = attacker_key;
  backend_instance_id = concat "ns-" (prefix 8 binding_id);
  status = active;
  first_seen_ts = now;
  last_seen_ts = now;
  ttl_expires_at = now + ttl;
  volume_ref = some (concat "vol-" (prefix 8 binding_id));
  unlocked_assets = [];
  revealed_configurations = [];
}

-- the record that `resolve` writes
unfoldable pub resolved : ℕ → ℕ → String → String → Option BindingRecord → BindingRecord
unfolding refresh fresh
resolved ttl now binding_id attacker_key none = fresh ttl now binding_id attacker_key
resolved ttl now binding_id attacker_key (some existing) =
    if leb now existing.ttl_expires_at
    then refresh ttl now existing
    else fresh ttl now binding_id attacker_key

unfoldable pub resolve : ℕ → ℕ → String → String → Records → BindingRecord × Records
unfolding resolved
resolve ttl now binding_id attacker_key records =
    upsert (resolved ttl now binding_id attacker_key (get_by_attacker attacker_key records)) records

-- `get`
abbrev pub lookup_or_raise : String → Option BindingRecord → Outcome BindingRecord
lookup_or_raise binding_id (some existing) = ok existing
lookup_or_raise binding_id none = binding_not_found binding_id

unfoldable pub get : String → Records → Outcome BindingRecord
get binding_id records = lookup_or_raise binding_id (get_by_binding binding_id records)

-- look up, change, store
abbrev pub modify :
    (BindingRecord → BindingRecord) → String → Records → Outcome (BindingRecord × Records)
modify change binding_id records = do
  existing ← get binding_id records
  ok (upsert (change existing) records)

pub modify_found :
    (change : BindingRecord → BindingRecord) (binding_id : String) (records : Records)
    (r : BindingRecord)
    → get_by_binding binding_id records ≡ some r
    → modify change binding_id records ≡ ok (upsert (change r) records)
unfolding get
modify_found change binding_id records r h =
    ap
      (λ (o : Option BindingRecord).
        lookup_or_raise binding_id o >>= λ existing. ok (upsert (change existing) records))
      h

unfoldable pub beaten : ℕ → ℕ → BindingRecord → BindingRecord
beaten ttl ts existing = record existing {
  status = active;
  last_seen_ts = ts;
  ttl_expires_at = ts + ttl;
}

unfoldable pub heartbeat : ℕ → ℕ → String → Records → Outcome (BindingRecord × Records)
unfolding get beaten
heartbeat ttl ts = modify (beaten ttl ts)

unfoldable pub put_away : ℕ → ℕ → RecycleMode → BindingRecord → BindingRecord
put_away ttl now idle_mode existing = record existing {
  status = recycled;
  last_seen_ts = now;
  ttl_expires_at = now + ttl;
}
put_away ttl now hard_mode existing = record existing {
  status = recycled;
  last_seen_ts = now;
  ttl_expires_at = now;
}

unfoldable pub recycle : ℕ → ℕ → RecycleMode → String → Records → Outcome (BindingRecord × Records)
unfolding get put_away
recycle ttl now mode = modify (put_away ttl now mode)

unfoldable pub unlocked : ℕ → List String → BindingRecord → BindingRecord
unlocked now asset_ids existing = record existing {
  status = active;
  last_seen_ts = now;
  unlocked_assets = add_all existing.unlocked_assets asset_ids;
}

unfoldable pub unlock_assets :
    ℕ → List String → String → Records → Outcome (BindingRecord × Records)
unfolding get unlocked
unlock_assets now asset_ids = modify (unlocked now asset_ids)

-- the loop of `reveal_configurations` over the buckets; `setdefault` makes an empty bucket
unfoldable pub merge_configurations : Dict (List String) → Dict (List String) → Dict (List String)
merge_configurations revealed [] = revealed
merge_configurations revealed ((asset_id, config_ids) ∷ rest) =
    merge_configurations (put asset_id (add_all (get_or asset_id revealed []) config_ids) revealed)
      rest

unfoldable pub configured : ℕ → Dict (List String) → BindingRecord → BindingRecord
unfolding merge_configurations
configured now configurations existing = record existing {
  status = active;
  last_seen_ts = now;
  revealed_configurations = merge_configurations existing.revealed_configurations configurations;
}

unfoldable pub reveal_configurations :
    ℕ → Dict (List String) → String → Records → Outcome (BindingRecord × Records)
unfolding get configured
reveal_configurations now configurations = modify (configured now configurations)
