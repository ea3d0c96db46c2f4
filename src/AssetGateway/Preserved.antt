-- ===== src/AssetGateway/Preserved.antt =====
-- Which routes of a table `replace_list_items` of libs/common/json_store.py keeps, where the new entries are
-- of one binding.
use mathlib.Core.Option.{some-injective}
use honeypot_fyp.Prelude.{
  String, Bool, false, ◌&&◌, ◌||◌, List, [], ◌∷◌, ◌++◌, some, any, All, filter, ◌==◌, string_eq,
  ◌≡◌, refl, sym, ap, ◌∙◌, arith, Bool-cases, inl, inr, eq_iff, any-append, filter-append,
}
use honeypot_fyp.Common.Json.{Json, null, bool, num, text, arr, obj, fields, Host}
use honeypot_fyp.Common.Numbers.{Numbers}
use honeypot_fyp.Common.JsonStore.Replace.{Atom, ◌>>=◌, key_eq, preserved}
use honeypot_fyp.AssetGateway.Select.{AssetRoute}
use honeypot_fyp.AssetGateway.Load.{routes_from}
use honeypot_fyp.AssetGateway.Upsert.{route_key}
use honeypot_fyp.AssetGateway.Table.{Reads, routes_from-cons}
use honeypot_fyp.AssetGateway.RouteKeys.{IsOf, HasKeys, key_eq-binding}

any_parts :
    (p : AssetRoute → Bool) (rs xs ys : List AssetRoute)
    → rs ≡ xs ++ ys
    → any p rs ≡ false
    → (any p xs ≡ false) × (any p ys ≡ false)
any_parts p rs xs ys is h =
    let parts : (any p xs || any p ys) ≡ false =
      sym (any-append p xs ys) ∙ ap (any p) (sym is) ∙ h in
    (ground arith, ground arith)

none_of_others :
    (b : String) (q : AssetRoute → Bool) (rs : List AssetRoute)
    → All (λ r. r.binding_id ≡ b) rs
    → any (λ r. r.binding_id == b && q r) rs ≡ false
    → filter q rs ≡ []
none_of_others b q [] own h = refl
none_of_others b q (r ∷ rs) own h =
    ground (arith, own.0, eq_iff r.binding_id b, none_of_others b q rs own.1)

module _ {F : Type 0} ⦃numbers : Numbers F⦄ (host : Host F) (b : String)
    (keys : List (List (Atom F))) (of_b : IsOf b keys) where
  -- The items that are kept hold no new route, and every route of another binding.
  pub record Keeps (xs : List (Json F)) (rs : List AssetRoute) : Type 0 where
    pub kept : List (Json F)
    pub routes : List AssetRoute
    pub kept_is : preserved route_key keys xs ≡ some kept
    pub routes_is : routes_from host kept ≡ some routes
    pub fewer : (p : AssetRoute → Bool) → any p rs ≡ false → any p routes ≡ false
    pub others :
        (q : AssetRoute → Bool)
        → any (λ r. r.binding_id == b && q r) rs ≡ false
        → filter q routes ≡ filter q rs

  kept-Keeps :
      (x : Json F) (xs : List (Json F)) (rs : List AssetRoute) (read : Reads host x xs rs)
      (tail : Keeps xs read.later)
      → preserved route_key keys (x ∷ xs) ≡ some (x ∷ tail.kept)
      → Keeps (x ∷ xs) rs
  kept-Keeps x xs rs read tail is = record {
    kept = x ∷ tail.kept;
    routes = read.here ++ tail.routes;
    kept_is = is;
    routes_is = read.adds tail.kept tail.routes tail.routes_is;
    fewer = λ p h.
        let (a, c) = any_parts p rs read.here read.later read.is h in
        any-append p read.here tail.routes ∙ rw (a, tail.fewer p c) refl;
    others = λ q h.
        let (_, c) = any_parts (λ r. r.binding_id == b && q r) rs read.here read.later read.is h in
        filter-append q read.here tail.routes
        ∙ ap (λ z. filter q read.here ++ z) (tail.others q c)
        ∙ sym (filter-append q read.here read.later)
        ∙ ap (filter q) (sym read.is);
  }

  dropped-Keeps :
      (x : Json F) (xs : List (Json F)) (rs : List AssetRoute) (read : Reads host x xs rs)
      (tail : Keeps xs read.later)
      → All (λ r. r.binding_id ≡ b) read.here
      → preserved route_key keys (x ∷ xs) ≡ some tail.kept
      → Keeps (x ∷ xs) rs
  dropped-Keeps x xs rs read tail own is = record {
    kept = tail.kept;
    routes = tail.routes;
    kept_is = is;
    routes_is = tail.routes_is;
    fewer = λ p h. tail.fewer p (any_parts p rs read.here read.later read.is h).1;
    others = λ q h.
        let (a, c) = any_parts (λ r. r.binding_id == b && q r) rs read.here read.later read.is h in
        tail.others q c
        ∙ ap (λ z. z ++ filter q read.later) (sym (none_of_others b q read.here own a))
        ∙ sym (filter-append q read.here read.later)
        ∙ ap (filter q) (sym read.is);
  }

  pub preserved-Keeps :
      (xs : List (Json F)) (rs : List AssetRoute)
      → HasKeys xs
      → routes_from host xs ≡ some rs
      → Keeps xs rs
  unfolding preserved routes_from
  preserved-Keeps [] rs has h = record {
    kept = [];
    routes = [];
    kept_is = refl;
    routes_is = refl;
    fewer = λ p e. refl;
    others = λ q e. ap (filter q) (some-injective [] rs h);
  }
  preserved-Keeps (obj fs ∷ xs) rs ((key, key_is), has) h =
      let read = routes_from-cons host (obj fs) xs rs h in
      let tail = preserved-Keeps xs read.later has read.rest_is in
      elim (Bool-cases (any (key_eq key) keys)) [
        | inl hit ↦
            dropped-Keeps (obj fs) xs rs read tail
              (read.of_binding b (key_eq-binding b (fields fs) key keys of_b key_is hit))
              (rw (key_is, tail.kept_is, hit, ◌>>=◌) refl)
        | inr miss ↦
            kept-Keeps (obj fs) xs rs read tail (rw (key_is, tail.kept_is, miss, ◌>>=◌) refl)
      ]
  preserved-Keeps (null ∷ xs) rs (_, has) h =
      let read = routes_from-cons host null xs rs h in
      let tail = preserved-Keeps xs read.later has read.rest_is in
      kept-Keeps null xs rs read tail (rw (tail.kept_is, ◌>>=◌) refl)
  preserved-Keeps (bool v ∷ xs) rs (_, has) h =
      let read = routes_from-cons host (bool v) xs rs h in
      let tail = preserved-Keeps xs read.later has read.rest_is in
      kept-Keeps (bool v) xs rs read tail (rw (tail.kept_is, ◌>>=◌) refl)
  preserved-Keeps (num v ∷ xs) rs (_, has) h =
      let read = routes_from-cons host (num v) xs rs h in
      let tail = preserved-Keeps xs read.later has read.rest_is in
      kept-Keeps (num v) xs rs read tail (rw (tail.kept_is, ◌>>=◌) refl)
  preserved-Keeps (text v ∷ xs) rs (_, has) h =
      let read = routes_from-cons host (text v) xs rs h in
      let tail = preserved-Keeps xs read.later has read.rest_is in
      kept-Keeps (text v) xs rs read tail (rw (tail.kept_is, ◌>>=◌) refl)
  preserved-Keeps (arr v ∷ xs) rs (_, has) h =
      let read = routes_from-cons host (arr v) xs rs h in
      let tail = preserved-Keeps xs read.later has read.rest_is in
      kept-Keeps (arr v) xs rs read tail (rw (tail.kept_is, ◌>>=◌) refl)
