-- ===== src/Config/Validate.antt =====
-- config.go: `ValidateConfig`.
pub mod Seen
pub mod Rounds
pub mod Spec
pub mod Defaults
use mathlib.Core.Option
use argonaut.Config.Check.{EndpointError, validate_endpoint, endpoint_local_ip}
use argonaut.Config.Schema.{
  Endpoint, Config, ValidationMode, host, enclave, other, normalize_config, schema_version_v01,
  max_endpoints,
}
use argonaut.Text.Decimal.{itoa}
use argonaut.Text.Lower.{to_lower}
use argonaut.Prelude.{
  ℕ, ◌+◌, ◌≡◌, refl, Bool, true, false, not, ◌||◌, List, [], ◌∷◌, ◌++◌, Option, none, some, equal,
  Result, ok, err, ◌>>◌, ◌>>=◌, map_err, require, ltb, ◌==◌, Bytes, length, if◌then◌else◌,
}

pub data ConfigError : Type 0 where
  config_nil endpoints_not_array http_port_range http_vsock_port_range : ConfigError
  http_tcp_port_range : ConfigError
  unsupported_schema unknown_mode : Bytes → ConfigError
  too_many_endpoints : ℕ → ConfigError
  endpoint_invalid : ℕ → EndpointError → ConfigError
  duplicate_host duplicate_vsock_port duplicate_local_addr : ℕ → ℕ → ConfigError

-- A Go map that the loop only adds to: `prev, ok := seen[key]`.
unfoldable pub seen_at {ℓ} : {K : Type ℓ} → (K → K → Bool) → K → List (K × ℕ) → Option ℕ
seen_at beq k [] = none
seen_at beq k ((j, i) ∷ seen) = if beq j k then some i else seen_at beq k seen

-- `if prev, ok := ...; ok { return ... }`
unfoldable pub absent : Option ℕ → (ℕ → ConfigError) → Result ConfigError (Unit {0})
absent none e = ok tt
absent (some prev) e = err (e prev)

abbrev pub host_key : Endpoint → Bytes
host_key ep = to_lower ep.host

abbrev pub local_addr : Endpoint → ℕ → Bytes
local_addr ep i = endpoint_local_ip ep i ++ b':' ∷ itoa ep.local_port

-- The loop over the endpoints, with the maps `hosts`, `vsockPorts` and `localAddrs`.
unfoldable pub check_endpoints :
    List (Bytes × ℕ)
    → List (ℕ × ℕ)
    → List (Bytes × ℕ)
    → ℕ
    → List Endpoint
    → Result ConfigError (Unit {0})
check_endpoints hosts ports addrs i [] = ok tt
check_endpoints hosts ports addrs i (ep ∷ eps) = do
  map_err (endpoint_invalid i) (validate_endpoint ep)
  absent (seen_at equal (host_key ep) hosts) (duplicate_host i)
  absent (seen_at ◌==◌ ep.vsock_port ports) (duplicate_vsock_port i)
  absent (seen_at equal (local_addr ep i) addrs) (duplicate_local_addr i)
  check_endpoints ((host_key ep, i) ∷ hosts) ((ep.vsock_port, i) ∷ ports)
      ((local_addr ep i, i) ∷ addrs) (i + 1) eps

-- the `switch mode`
unfoldable pub check_ports : Config → ValidationMode → Result ConfigError (Unit {0})
check_ports cfg host = do
  require (not (cfg.http_port == 0)) http_port_range
  require (not (cfg.http_vsock_port == 0 || ltb 65535 cfg.http_vsock_port)) http_vsock_port_range
check_ports cfg enclave = do
  require (not (cfg.http_vsock_port == 0 || ltb 65535 cfg.http_vsock_port)) http_vsock_port_range
  require (not (cfg.http_tcp_port == 0)) http_tcp_port_range
check_ports cfg (other m) = err (unknown_mode m)

check_list : Config → ValidationMode → Option (List Endpoint) → Result ConfigError (Unit {0})
check_list cfg mode none = err endpoints_not_array
check_list cfg mode (some eps) = do
  require cfg.endpoints_set endpoints_not_array
  require (not (ltb max_endpoints (length eps))) (too_many_endpoints (length eps))
  check_ports cfg mode
  check_endpoints [] [] [] 0 eps

-- what follows the call of `normalizeConfig`
unfoldable pub check_config : Config → ValidationMode → Result ConfigError (Unit {0})
unfolding check_list
check_config cfg mode = do
  require (equal cfg.schema_version schema_version_v01) (unsupported_schema cfg.schema_version)
  check_list cfg mode cfg.endpoints

-- The configuration is normalized in place, also where it is then rejected.
unfoldable pub validate_config :
    Option Config → ValidationMode → Option Config × Result ConfigError (Unit {0})
validate_config none mode = (none, err config_nil)
validate_config (some cfg) mode =
    let cfg' = normalize_config cfg in (some cfg', check_config cfg' mode)
