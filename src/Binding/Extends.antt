-- ===== src/Binding/Extends.antt =====
-- A binding of services/binding_service at a later time, against what it was.
use honeypot_fyp.Prelude.{ℕ, String, true, ◌≡◌, refl, ◌∙◌, string_eq, member, member-add_all}
use honeypot_fyp.Contracts.Bindings.{BindingRecord, idle_mode, hard_mode}
use honeypot_fyp.Binding.Service.{beaten, put_away, unlocked, configured}
use honeypot_fyp.Binding.Unlocks.{reveals, merge_reveals}
use honeypot_fyp.Binding.Invariant.{
  Command, resolve, heartbeat, recycle, unlock_assets, reveal_configurations, change,
}

-- The same binding at a later time: nothing that was unlocked or revealed is taken back.
pub record Extends (r s : BindingRecord) : Type 0 where
  pub id : s.binding_id ≡ r.binding_id
  pub attacker : s.attacker_key ≡ r.attacker_key
  pub backend : s.backend_instance_id ≡ r.backend_instance_id
  pub first_seen : s.first_seen_ts ≡ r.first_seen_ts
  pub assets : (a : String) → member a r.unlocked_assets ≡ true → member a s.unlocked_assets ≡ true
  pub configurations :
      (a c : String)
      → reveals a c r.revealed_configurations ≡ true
      → reveals a c s.revealed_configurations ≡ true

pub Extends-refl : (r : BindingRecord) → Extends r r
Extends-refl r = record {
  id = refl;
  attacker = refl;
  backend = refl;
  first_seen = refl;
  assets = λ a h. h;
  configurations = λ a c h. h;
}

pub Extends-trans : {r s t : BindingRecord} → Extends r s → Extends s t → Extends r t
Extends-trans e f = record {
  id = f.id ∙ e.id;
  attacker = f.attacker ∙ e.attacker;
  backend = f.backend ∙ e.backend;
  first_seen = f.first_seen ∙ e.first_seen;
  assets = λ a h. f.assets a (e.assets a h);
  configurations = λ a c h. f.configurations a c (e.configurations a c h);
}

pub change-Extends : (ttl : ℕ) (c : Command) (r : BindingRecord) → Extends r (change ttl c r)
unfolding beaten put_away unlocked configured
change-Extends ttl (resolve now uuid a) r = Extends-refl r
change-Extends ttl (heartbeat ts id) r = record {
  id = refl;
  attacker = refl;
  backend = refl;
  first_seen = refl;
  assets = λ a h. h;
  configurations = λ a c h. h;
}
change-Extends ttl (recycle now idle_mode id) r = record {
  id = refl;
  attacker = refl;
  backend = refl;
  first_seen = refl;
  assets = λ a h. h;
  configurations = λ a c h. h;
}
change-Extends ttl (recycle now hard_mode id) r = record {
  id = refl;
  attacker = refl;
  backend = refl;
  first_seen = refl;
  assets = λ a h. h;
  configurations = λ a c h. h;
}
change-Extends ttl (unlock_assets now assets id) r = record {
  id = refl;
  attacker = refl;
  backend = refl;
  first_seen = refl;
  assets = λ a h. rw (member-add_all a r.unlocked_assets assets, h);
  configurations = λ a c h. h;
}
change-Extends ttl (reveal_configurations now confs id) r = record {
  id = refl;
  attacker = refl;
  backend = refl;
  first_seen = refl;
  assets = λ a h. h;
  configurations = λ a c h. rw (merge_reveals a c r.revealed_configurations confs, h);
}
