-- ===== src/AssetGateway/Ports.antt =====
-- `resolve_port_mappings` and `asset_gateway_managed` of services/orchestrator/runtime_routes.py.
use Prim.Native.Char.{code}
use Prim.Native.String.{◌++◌ as concat}
use honeypot_fyp.Prelude.{
  ℕ, String, Bool, true, false, not, ◌&&◌, ◌||◌, List, [], ◌∷◌, Option, none, some, is_empty, leb,
  nat_beq, if◌then◌else◌, ◌==◌, string_eq, list_eq, nat_eq,
}
use honeypot_fyp.Common.Dict.{Dict, get}
use honeypot_fyp.Common.Json.{
  Json, null, bool, num, text, arr, obj, items, fields, field, end, Host, text_of,
}
use honeypot_fyp.Common.Numbers.{Numbers, as_int}
use honeypot_fyp.Common.Text.{codes, is_blank, strip, lower}
use honeypot_fyp.Common.JsonStore.Replace.{◌>>=◌}
use honeypot_fyp.Contracts.Assets.{AssetDefinition, is_internal}

-- `os.environ.get`, `str.upper`, whether a port can be bound, and the port that `bind` to port 0 gets.
pub record Machine : Type 0 where
  pub environ : String → Option String
  pub upper : String → String
  pub port_is_free : ℕ → Bool
  pub find_free_port : ℕ

-- `s.replace("-", "_")`
underscored : String → String
underscored String.[] = String.[]
underscored (String.◌∷◌ c s) = String.◌∷◌ (if nat_beq (code c) b'-' then "_" else c) (underscored s)

-- `os.environ.get(name, default).strip()`
unfoldable pub setting : Machine → String → String → String
unfolding strip
setting m name default = strip (elim (m.environ name) [ some v ↦ v | none ↦ default ])

unfoldable pub port_variable : Machine → String → String
unfolding underscored
port_variable m asset_id =
    concat "HONEYPOT_ASSET_" (concat (underscored (m.upper asset_id)) "_PORT")

pub record PortRecord : Type 0 where
  pub host : String
  pub host_port : ℕ
  pub container_port : ℕ
  pub backend : Option (String × ℕ)

abbrev pub valid_port : Option ℕ → Option ℕ
valid_port none = none
valid_port (some port) = if leb 1 port && leb port 65535 then some port else none

module _ (m : Machine) where
  -- `_asset_port_override`, where `parse_int` is `int` of a text
  unfoldable pub asset_port_override : (String → Option ℕ) → Option String → Option ℕ
  unfolding setting port_variable
  asset_port_override parse_int none = none
  asset_port_override parse_int (some asset_id) =
      let raw = setting m (port_variable m asset_id) "" in
      if is_blank asset_id || is_blank raw then none else valid_port (parse_int raw)

  abbrev requested_or_free : Option ℕ → ℕ
  requested_or_free (some port) = if m.port_is_free port then port else m.find_free_port
  requested_or_free none = m.find_free_port

  -- `_resolve_host_port`
  unfoldable pub resolve_host_port : Option ℕ → Option ℕ → ℕ
  resolve_host_port (some env_port) requested =
      if m.port_is_free env_port then env_port else requested_or_free requested
  resolve_host_port none requested = requested_or_free requested

-- `_resolve_public_port`
unfoldable pub resolve_public_port : Option ℕ → Option ℕ → ℕ → ℕ
resolve_public_port (some env_port) requested container_port = env_port
resolve_public_port none (some port) container_port = port
resolve_public_port none none container_port = container_port

module _ {F : Type 0} ⦃numbers : Numbers F⦄ where
  -- `int(item.get("container_port", 80))`; none where it raises
  unfoldable pub container_port_of : Option (Json F) → Option ℕ
  container_port_of none = some 80
  container_port_of (some (num x)) = numbers.trunc x
  container_port_of (some (bool b)) = some (if b then 1 else 0)
  container_port_of (some (text s)) = numbers.parse_int s
  container_port_of (some _) = none

module _ {F : Type 0} ⦃numbers : Numbers F⦄ (m : Machine) where
  -- `_resolve_host_bind`
  unfoldable pub resolve_host_bind : Host F → Option (Json F) → String
  unfolding setting text_of
  resolve_host_bind host value =
      let override = setting m "HONEYPOT_RUNTIME_HOST_BIND" "" in
      if is_blank override
      then elim value [ some v ↦ text_of host v | none ↦ "127.0.0.1" ]
      else override

  module _ (host : Host F) (asset_id : Option String) (managed : Bool) (backend_host : String) where
    -- the body of the loop
    unfoldable pub resolve_mapping : Dict (Json F) → Option PortRecord
    unfolding container_port_of resolve_public_port resolve_host_port asset_port_override
        resolve_host_bind get
    resolve_mapping item = do
      container_port ← container_port_of (get "container_port" item)
      let override = asset_port_override m numbers.parse_int asset_id
      let requested = as_int (get "requested_host_port" item)
      some (record {
        host = resolve_host_bind host (get "host" item);
        host_port =
            if managed
            then resolve_public_port override requested container_port
            else resolve_host_port m override requested;
        container_port = container_port;
        backend = if managed then some (backend_host, container_port) else none;
      })

    unfoldable pub resolve_mappings : List (Json F) → Option (List PortRecord)
    unfolding resolve_mapping
    resolve_mappings [] = some []
    resolve_mappings (obj fs ∷ rest) = do
      port_record ← resolve_mapping (fields fs)
      resolved ← resolve_mappings rest
      some (port_record ∷ resolved)
    resolve_mappings (item ∷ rest) = resolve_mappings rest

module _ {F : Type 0} ⦃numbers : Numbers F⦄ where
  -- `runtime.get(key, default)`
  abbrev or_value : Json F → Option (Json F) → Json F
  or_value default o = elim o [ some v ↦ v | none ↦ default ]

  -- the one mapping of the old catalog format
  unfoldable pub old_mapping : Dict (Json F) → Json F
  unfolding get
  old_mapping runtime = obj (
      field "host" (text "127.0.0.1") (
        field "requested_host_port" (or_value null (get "requested_host_port" runtime)) (
          field "container_port" (or_value (num (numbers.of_int 80)) (get "container_port" runtime))
            end)))

  unfoldable pub raw_mappings : Dict (Json F) → List (Json F)
  unfolding get old_mapping
  raw_mappings runtime = elim (get "port_mappings" runtime) [
    | some (arr vs) ↦ items vs
    | _ ↦ old_mapping runtime ∷ []
  ]

  unfoldable pub resolve_port_mappings :
      Machine → Host F → Option String → Bool → String → Dict (Json F) → Option (List PortRecord)
  unfolding raw_mappings resolve_mappings
  resolve_port_mappings m host asset_id managed backend_host runtime =
      resolve_mappings m host asset_id managed backend_host (raw_mappings runtime)

-- `raw in {"0", "false", "no", "off"}`, of the lowered text
unfoldable pub switched_off : List ℕ → Bool
switched_off raw =
    raw == codes "0" || raw == codes "false" || raw == codes "no" || raw == codes "off"

abbrev is_there {ℓ} : {A : Type ℓ} → Option A → Bool
is_there none = false
is_there (some a) = true

module _ {F : Type 0} where
  unfoldable pub asset_gateway_managed : Machine → AssetDefinition F → Dict (Json F) → Bool
  unfolding setting lower switched_off get
  asset_gateway_managed m asset runtime =
      not (switched_off (lower (setting m "HONEYPOT_ASSET_GATEWAY_ENABLED" "1")))
      && is_internal asset.exposure_type
      && elim (get "port_mappings" runtime) [
        | some (arr vs) ↦ not (is_empty (items vs))
        | _ ↦
            is_there (get "requested_host_port" runtime) || is_there (get "container_port" runtime)
      ]
