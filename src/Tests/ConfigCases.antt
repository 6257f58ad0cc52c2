-- ===== src/Tests/ConfigCases.antt =====
-- config.go at concrete inputs; most are those of main_test.go.
use argonaut.Config.Addr.{parse_v4}
use argonaut.Config.Address.{endpoint_local_ip-IsLoopback}
use argonaut.Config.Check.{
  validate_endpoint, validate_endpoint_iff, IsEndpoint, IsLoopback, endpoint_local_ip,
  is_loopback_v4,
}
use argonaut.Config.Hostname.{validate_hostname, validate_hostname_iff, IsHostname}
use argonaut.Config.Schema.{Endpoint, Config, host, normalize_config, normalize_endpoint}
use argonaut.Config.Validate.Defaults.{IsUsable, validate_config-IsUsable}
use argonaut.Config.Validate.Spec.{IsConfig, validate_config_iff}
use argonaut.Config.Validate.{
  validate_config, check_config, check_ports, check_endpoints, seen_at, absent,
}
use argonaut.Text.Decimal.{itoa}
use argonaut.Prelude.{
  ℕ, ◌≡◌, refl, true, false, List, [], ◌∷◌, map, none, some, equal, ok, ◌↔◌, Bytes, codes, All,
  arith,
}

abbrev endpoint : Bytes → ℕ → Endpoint
endpoint h port = record {
  host = h;
  vsock_port = port;
  tcp_port = 0;
  local_port = 0;
  local_ip = [];
  host_set = true;
  vsock_port_set = true;
  tcp_port_set = false;
  local_port_set = false;
  local_ip_set = false;
}

abbrev pub config : List Endpoint → Config
config eps = record {
  schema_version = [];
  http_port = 8080;
  http_vsock_port = 3000;
  http_tcp_port = 3000;
  endpoints = some eps;
  endpoints_set = true;
}

abbrev pub sui : Endpoint
sui = endpoint (codes "fullnode.testnet.sui.io") 8104

abbrev pinned : Endpoint
pinned = record sui { local_ip = codes "127.1.2.3"; local_ip_set = true }

abbrev pub two : List Endpoint
two = sui ∷ endpoint (codes "example.com") 8105 ∷ []

accepts_two : (validate_config (some (config two)) host).1 ≡ ok tt
unfolding validate_config check_config check_ports check_endpoints seen_at absent validate_endpoint
    validate_hostname normalize_config normalize_endpoint endpoint_local_ip equal itoa
    is_loopback_v4 parse_v4
accepts_two = refl

accepts_pinned : validate_endpoint pinned ≡ ok tt
unfolding validate_endpoint validate_hostname equal is_loopback_v4 parse_v4
accepts_pinned = refl

rejects :
    (parse_v4 (codes "127.0.0.01") ≡ none)
    × (parse_v4 (codes "127.0.0.256") ≡ none)
    × (parse_v4 (codes "127.0.0.1.") ≡ none)
    × (parse_v4 (codes "::ffff:127.0.0.1") ≡ none)
    × (parse_v4 (codes "127.0.0.1") ≡ some (127 ∷ 0 ∷ 0 ∷ 1 ∷ []))
unfolding parse_v4
rejects = (refl, refl, refl, refl, refl)

validate_hostname_iff_example :
    (validate_hostname (codes "fullnode.testnet.sui.io") ≡ ok tt)
    ↔ IsHostname (codes "fullnode.testnet.sui.io")
validate_hostname_iff_example = validate_hostname_iff (codes "fullnode.testnet.sui.io")

validate_endpoint_iff_example : (validate_endpoint pinned ≡ ok tt) ↔ IsEndpoint pinned
validate_endpoint_iff_example = validate_endpoint_iff pinned

pinned-IsEndpoint : IsEndpoint pinned
pinned-IsEndpoint = (validate_endpoint_iff pinned).0 accepts_pinned

endpoint_local_ip-IsLoopback_example : IsLoopback (endpoint_local_ip pinned 7)
endpoint_local_ip-IsLoopback_example =
    endpoint_local_ip-IsLoopback pinned 7 pinned-IsEndpoint (omega arith)

validate_config_iff_example :
    ((validate_config (some (config two)) host).1 ≡ ok tt)
    ↔ IsConfig host (normalize_config (config two))
validate_config_iff_example = validate_config_iff (config two) host

validate_config-IsUsable_example :
    (cfg' : Config) × ((validate_config (some (config two)) host).0 ≡ some cfg')
    × (cfg'.endpoints ≡ some (map normalize_endpoint two))
    × All IsUsable (map normalize_endpoint two)
    × (validate_config (some cfg') host ≡ (some cfg', ok tt))
validate_config-IsUsable_example = validate_config-IsUsable (config two) host two accepts_two refl
