-- ===== src/AssetGateway/Bounds.antt =====
-- The ports that `resolve_port_mappings` of services/orchestrator/runtime_routes.py gives.
use honeypot_fyp.Prelude.{
  ℕ, ◌≤◌, String, Bool, true, false, ◌&&◌, ◌||◌, List, [], ◌∷◌, Option, none, some, leb,
  if◌then◌else◌, string_eq, list_eq, nat_eq, All, ◌≡◌, refl, arith, Bool-cases, inl, inr,
}
use honeypot_fyp.Common.Dict.{Dict, get}
use honeypot_fyp.Common.Json.{Json, null, bool, num, text, arr, obj, fields, Host}
use honeypot_fyp.Common.Numbers.{Numbers, as_int}
use honeypot_fyp.Common.Text.{is_blank}
use honeypot_fyp.Common.JsonStore.Replace.{◌>>=◌}
use honeypot_fyp.AssetGateway.Ports.{
  Machine, port_variable, setting, PortRecord, valid_port, asset_port_override, resolve_host_port,
  resolve_public_port, resolve_host_bind, container_port_of, resolve_mapping, resolve_mappings,
  raw_mappings, resolve_port_mappings,
}

-- A TCP port.
abbrev pub IsPort : ℕ → Type 0
IsPort n = (1 ≤ n) × (n ≤ 65535)

abbrev pub IsNoneOrPort : Option ℕ → Type 0
IsNoneOrPort none = Unit
IsNoneOrPort (some n) = IsPort n

valid_port-IsNoneOrPort : (o : Option ℕ) → IsNoneOrPort (valid_port o)
valid_port-IsNoneOrPort none = tt
valid_port-IsNoneOrPort (some port) = elim (Bool-cases (leb 1 port && leb port 65535)) [
  | inl valid ↦ rw valid (ground arith, ground arith)
  | inr invalid ↦ rw invalid tt
]

asset_port_override-IsNoneOrPort :
    (m : Machine) (parse_int : String → Option ℕ) (asset_id : Option String)
    → IsNoneOrPort (asset_port_override m parse_int asset_id)
unfolding asset_port_override
asset_port_override-IsNoneOrPort m parse_int none = tt
asset_port_override-IsNoneOrPort m parse_int (some asset_id) =
    let name = port_variable m asset_id in
    elim (Bool-cases (is_blank asset_id || is_blank (setting m name ""))) [
      | inl unset ↦ rw unset tt
      | inr set_there ↦ rw set_there (valid_port-IsNoneOrPort (parse_int (setting m name "")))
    ]

resolve_host_port-IsPort :
    (m : Machine) (override requested : Option ℕ)
    → IsPort m.find_free_port
    → IsNoneOrPort override
    → IsNoneOrPort requested
    → IsPort (resolve_host_port m override requested)
unfolding resolve_host_port
resolve_host_port-IsPort m none none f o r = f
resolve_host_port-IsPort m none (some p) f o r = ground arith
resolve_host_port-IsPort m (some q) none f o r = ground arith
resolve_host_port-IsPort m (some q) (some p) f o r = ground arith

resolve_public_port-IsPort :
    (override requested : Option ℕ) (container_port : ℕ)
    → IsPort container_port
    → IsNoneOrPort override
    → IsNoneOrPort requested
    → IsPort (resolve_public_port override requested container_port)
unfolding resolve_public_port
resolve_public_port-IsPort none none c f o r = f
resolve_public_port-IsPort none (some p) c f o r = r
resolve_public_port-IsPort (some q) requested c f o r = o

module _ {F : Type 0} ⦃numbers : Numbers F⦄ where
  -- The ports of a mapping of the catalog are TCP ports, where it has any.
  abbrev pub HasPorts : Json F → Type 0
  HasPorts (obj fs) =
      ((port : ℕ) × (container_port_of (get "container_port" (fields fs)) ≡ some port)
        × IsPort port)
      × IsNoneOrPort (as_int (get "requested_host_port" (fields fs)))
  HasPorts _ = Unit

  module _ (m : Machine) (host : Host F) (asset_id : Option String) (managed : Bool)
      (backend_host : String) (free : IsPort m.find_free_port) where
    abbrev Resolves : List (Json F) → Type 0
    Resolves ms =
        (resolved : List PortRecord) × (resolve_mappings m host asset_id managed backend_host ms
          ≡ some resolved)
        × All (λ r. IsPort r.host_port × IsPort r.container_port) resolved

    mapped :
        (managed' : Bool) (override wanted : Option ℕ) (port : ℕ)
        → IsNoneOrPort override
        → IsNoneOrPort wanted
        → IsPort port
        → IsPort (
            if managed'
            then resolve_public_port override wanted port
            else resolve_host_port m override wanted)
    mapped true override wanted port o w p = resolve_public_port-IsPort override wanted port p o w
    mapped false override wanted port o w p = resolve_host_port-IsPort m override wanted free o w

    resolve_mappings-Resolves : (ms : List (Json F)) → All HasPorts ms → Resolves ms
    unfolding resolve_mappings resolve_mapping
    resolve_mappings-Resolves [] h = ([], refl, tt)
    resolve_mappings-Resolves (obj fs ∷ rest) (((port, port_is, is_port), requested), h) =
        let (resolved, is, ports) = resolve_mappings-Resolves rest h in
        let override = asset_port_override m numbers.parse_int asset_id in
        let override_is = asset_port_override-IsNoneOrPort m numbers.parse_int asset_id in
        let wanted = as_int (get "requested_host_port" (fields fs)) in
        (
          record {
            host = resolve_host_bind m host (get "host" (fields fs));
            host_port =
                if managed
                then resolve_public_port override wanted port
                else resolve_host_port m override wanted;
            container_port = port;
            backend = if managed then some (backend_host, port) else none;
          }
              ∷ resolved,
          rw (port_is, is, ◌>>=◌) refl,
          ((mapped managed override wanted port override_is requested is_port, is_port), ports),
        )
    resolve_mappings-Resolves (null ∷ rest) h = resolve_mappings-Resolves rest h.1
    resolve_mappings-Resolves (bool b ∷ rest) h = resolve_mappings-Resolves rest h.1
    resolve_mappings-Resolves (num n ∷ rest) h = resolve_mappings-Resolves rest h.1
    resolve_mappings-Resolves (text t ∷ rest) h = resolve_mappings-Resolves rest h.1
    resolve_mappings-Resolves (arr vs ∷ rest) h = resolve_mappings-Resolves rest h.1

  -- Where the free port of the machine and the ports of the catalog are TCP ports,
  -- resolve_port_mappings gives a record for the mappings, and all of its public and container
  -- ports are TCP ports, whatever the environment overrides.
  pub resolve_port_mappings-ArePorts :
      (m : Machine) (host : Host F) (asset_id : Option String) (managed : Bool)
      (backend_host : String) (runtime : Dict (Json F))
      → IsPort m.find_free_port
      → All HasPorts (raw_mappings runtime)
      → (resolved : List PortRecord) × (resolve_port_mappings m host asset_id managed backend_host
            runtime
          ≡ some resolved)
        × All (λ r. IsPort r.host_port × IsPort r.container_port) resolved
  unfolding resolve_port_mappings
  resolve_port_mappings-ArePorts m host asset_id managed backend_host runtime free ports =
      resolve_mappings-Resolves m host asset_id managed backend_host free (raw_mappings runtime)
        ports
