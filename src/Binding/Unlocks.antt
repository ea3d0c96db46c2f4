-- ===== src/Binding/Unlocks.antt =====
-- What `unlock_assets` and `reveal_configurations` of services/binding_service/domain.py collect.
use honeypot_fyp.Prelude.{
  ℕ, String, Bool, false, ◌||◌, List, [], ◌∷◌, ◌≡◌, arith, eq_iff, ◌==◌, string_eq, Distinct,
  member, add_all, add_all-Distinct, member-add_all, if◌then◌else◌, Bool-cases, inl, inr,
}
use honeypot_fyp.Common.Dict.{Dict, put, get_or, keys, get-put, put-Distinct}
use honeypot_fyp.Contracts.Bindings.{BindingRecord}
use honeypot_fyp.Binding.Service.{unlocked, configured, merge_configurations}

-- Whether `config_id` is recorded for `asset_id`.
abbrev pub reveals : String → String → Dict (List String) → Bool
reveals asset_id config_id revealed = member config_id (get_or asset_id revealed [])

get_or-put :
    (j k : String) (v : List String) (d : Dict (List String))
    → get_or j (put k v d) [] ≡ (if k == j then v else get_or j d [])
unfolding get_or
get_or-put j k v d = ground (arith, get-put k j v d)

-- Whether `config_id` is asked for, at `asset_id`, by one of the entries.
unfoldable pub asks : String → String → Dict (List String) → Bool
asks asset_id config_id [] = false
asks asset_id config_id ((k, config_ids) ∷ rest) =
    (if k == asset_id then member config_id config_ids else false) || asks asset_id config_id rest

pub merge_reveals :
    (a c : String) (revealed entries : Dict (List String))
    → reveals a c (merge_configurations revealed entries)
      ≡ (reveals a c revealed || asks a c entries)
unfolding merge_configurations asks
merge_reveals a c revealed [] = ground arith
merge_reveals a c revealed ((k, ids) ∷ rest) = ground (
  arith,
  merge_reveals a c (put k (add_all (get_or k revealed []) ids) revealed) rest,
  get_or-put a k (add_all (get_or k revealed []) ids) revealed,
  member-add_all c (get_or k revealed []) ids,
  eq_iff k a,
)

abbrev pub AllDistinct : Dict (List String) → Type 0
AllDistinct d = (a : String) → Distinct (get_or a d [])

merge-AllDistinct :
    (revealed entries : Dict (List String))
    → AllDistinct revealed
    → AllDistinct (merge_configurations revealed entries)
unfolding merge_configurations
merge-AllDistinct revealed [] h = h
merge-AllDistinct revealed ((k, ids) ∷ rest) h =
    merge-AllDistinct (put k (add_all (get_or k revealed []) ids) revealed) rest (λ a.
      rw (get_or-put a k (add_all (get_or k revealed []) ids) revealed)
        (elim (Bool-cases (k == a)) [
          | inl here ↦ rw here (add_all-Distinct (get_or k revealed []) ids (h k))
          | inr past ↦ rw past (h a)
        ]))

merge_keys :
    (revealed entries : Dict (List String))
    → Distinct (keys revealed)
    → Distinct (keys (merge_configurations revealed entries))
unfolding merge_configurations
merge_keys revealed [] h = h
merge_keys revealed ((k, ids) ∷ rest) h =
    merge_keys (put k (add_all (get_or k revealed []) ids) revealed) rest
      (put-Distinct k _ revealed h)

pub record IsWellFormed (r : BindingRecord) : Type 0 where
  pub assets : Distinct r.unlocked_assets
  pub buckets : AllDistinct r.revealed_configurations
  pub bucket_keys : Distinct (keys r.revealed_configurations)

-- On a well-formed record, an asset is unlocked after unlock_assets exactly if it was or is asked
-- for, and the record is well-formed again: none is listed twice.
pub unlocked_assets_exact :
    (now : ℕ) (asset_ids : List String) (r : BindingRecord)
    → IsWellFormed r
    → ((a : String)
        → member a (unlocked now asset_ids r).unlocked_assets
          ≡ (member a r.unlocked_assets || member a asset_ids))
      × IsWellFormed (unlocked now asset_ids r)
unfolding unlocked
unlocked_assets_exact now asset_ids r h = (
  λ a. member-add_all a r.unlocked_assets asset_ids,
  record {
    assets = add_all-Distinct r.unlocked_assets asset_ids h.assets;
    buckets = h.buckets;
    bucket_keys = h.bucket_keys;
  },
)

-- On a well-formed record, a configuration is recorded for an asset after reveal_configurations
-- exactly if it was or is asked for there, and the record is well-formed again.
pub revealed_configurations_exact :
    (now : ℕ) (configurations : Dict (List String)) (r : BindingRecord)
    → IsWellFormed r
    → ((a c : String)
        → reveals a c (configured now configurations r).revealed_configurations
          ≡ (reveals a c r.revealed_configurations || asks a c configurations))
      × IsWellFormed (configured now configurations r)
unfolding configured
revealed_configurations_exact now configurations r h = (
  λ a c. merge_reveals a c r.revealed_configurations configurations,
  record {
    assets = h.assets;
    buckets = merge-AllDistinct r.revealed_configurations configurations h.buckets;
    bucket_keys = merge_keys r.revealed_configurations configurations h.bucket_keys;
  },
)
