-- ===== src/Profiler/Window.antt =====
-- The window of `_rebuild_profile` of services/profiler/domain.py: what of the stored evidence the
-- snapshot shows.
use honeypot_fyp.Prelude.{
  ℕ, String, true, false, List, any, is_empty, member, ltb, ◌==◌, string_eq, nat_eq, option_eq, ◌≡◌,
  sym, ◌∙◌,
}
use honeypot_fyp.Common.Dict.{get}
use honeypot_fyp.Common.Floats.{FloatOps}
use honeypot_fyp.Common.Json.{Host}
use honeypot_fyp.Common.Sorting.{sort_by, any-sort_by}
use honeypot_fyp.Contracts.Evidence.{TechniqueEvidence}
use honeypot_fyp.Profiler.Profile.{earlier, texts_of, snapshot_at, rebuild}
use honeypot_fyp.Profiler.Newest.{sort_by-IsAscending, last_newest, rebuild_nonempty}
use honeypot_fyp.Profiler.Shown.{
  Shows, has_technique, has_tactic, has_http, present-Shows, http_values-Shows,
  source_ref_values-Shows,
}

module _ {F : Type 0} ⦃ops : FloatOps F⦄ (host : Host F) (window now : ℕ)
    (attacker_key : String) where
  -- Where an attacker has evidence, a rebuild is dated with the newest time of it, and the recent
  -- tactics and techniques are, without repeats, exactly those of the evidence that is no older
  -- than the window before that time.
  pub rebuild_window :
      (stored : List (TechniqueEvidence F))
      → is_empty stored ≡ false
      → let p = rebuild host window now attacker_key stored in
        (any (λ e. e.ts == p.updated_at) stored ≡ true)
        × (any (λ e. ltb p.updated_at e.ts) stored ≡ false)
        × Shows p.recent_tactics has_tactic window p.updated_at stored
        × Shows p.recent_techniques has_technique window p.updated_at stored
  unfolding snapshot_at
  rebuild_window stored h =
      let (l, found, is) = rebuild_nonempty host window now attacker_key stored h in
      let (none_later, newest, _) =
        last_newest (sort_by earlier stored) l (sort_by-IsAscending stored) found in
      rw is (
        sym (any-sort_by (λ e. e.ts == l.ts) earlier stored) ∙ newest,
        sym (any-sort_by (λ e. ltb l.ts e.ts) earlier stored) ∙ none_later,
        present-Shows window l.ts stored (λ e. e.group),
        present-Shows window l.ts stored (λ e. e.tech_id),
      )

  -- Where an attacker has evidence, the recent paths, rules and indicators of the public and of the
  -- internal surface are, without repeats, exactly those of the recent evidence whose source is
  -- that surface, and the recent asset ids those of all recent evidence.
  pub rebuild_breadcrumbs :
      (stored : List (TechniqueEvidence F))
      → is_empty stored ≡ false
      → let p = rebuild host window now attacker_key stored in
        let Holds = λ (values : List String) (source key : String).
          Shows values (has_http source key) window p.updated_at stored in
        Holds p.recent_public_http_paths "public_http" "http_path"
        × Holds p.recent_public_http_rules "public_http" "http_rule_names"
        × Holds p.recent_public_http_indicators "public_http" "http_indicators"
        × Holds p.recent_internal_http_paths "internal_http" "http_path"
        × Holds p.recent_internal_http_rules "internal_http" "http_rule_names"
        × Holds p.recent_internal_http_indicators "internal_http" "http_indicators"
        × Shows p.recent_asset_ids
            (λ v e. member v (texts_of (get "asset_id" e.source_ref)))
            window
            p.updated_at
            stored
  unfolding snapshot_at
  rebuild_breadcrumbs stored h =
      let (l, found, is) = rebuild_nonempty host window now attacker_key stored h in
      let holds = http_values-Shows window l.ts stored in
      rw is (
        holds "public_http" "http_path",
        holds "public_http" "http_rule_names",
        holds "public_http" "http_indicators",
        holds "internal_http" "http_path",
        holds "internal_http" "http_rule_names",
        holds "internal_http" "http_indicators",
        source_ref_values-Shows window l.ts stored "asset_id",
      )
