-- ===== src/Config/Validate/Spec.antt =====
-- config.go: `ValidateConfig` against the schema that the README describes.
use argonaut.Config.Address.{endpoint_local_ip-IsIpByte, IsIpByte}
use argonaut.Config.Check.{IsEndpoint, endpoint_local_ip}
use argonaut.Config.Schema.{
  Endpoint, Config, ValidationMode, host, enclave, other, normalize_config, schema_version_v01,
  max_endpoints,
}
use argonaut.Config.Validate.Rounds.{local_addrs, check_endpoints-Checked, Checked-check_endpoints}
use argonaut.Config.Validate.Seen.{DistinctFrom-nil}
use argonaut.Config.Validate.{
  host_key, local_addr, check_endpoints, check_ports, check_config, validate_config,
}
use argonaut.Text.Decimal.{itoa, itoa_injective}
use argonaut.Prelude.{
  ℕ, ◌+◌, ◌≤◌, ◌≡◌, ◌≢◌, ◌↔◌, inl, inr, refl, ap, true, List, [], ◌∷◌, ◌++◌, map, arith, equal,
  equal_iff, Bytes, All, Lacks, Distinct, All-map, Distinct-of_map, Distinct-map, cut_at, length,
  none, some, Option-cases, ok,
}

-- The address and port that each endpoint is to be bound to in enclave mode.
abbrev pub binds : ℕ → List Endpoint → List (Bytes × ℕ)
binds i [] = []
binds i (ep ∷ eps) = (endpoint_local_ip ep i, ep.local_port) ∷ binds (i + 1) eps

abbrev pub IsPort : ℕ → Type 0
IsPort p = (1 ≤ p) × (p ≤ 65535)

-- The ports that a mode needs; httpPort and httpTcpPort are 16 bits wide by their type.
abbrev pub HasPorts : ValidationMode → Config → Type 0
HasPorts host cfg = (1 ≤ cfg.http_port) × IsPort cfg.http_vsock_port
HasPorts enclave cfg = IsPort cfg.http_vsock_port × (1 ≤ cfg.http_tcp_port)
HasPorts (other m) cfg = ⊥

-- What `ValidateConfig` promises of a normalized configuration.
pub record IsConfig (mode : ValidationMode) (cfg : Config) : Type 0 where
  pub version : cfg.schema_version ≡ schema_version_v01
  pub list : List Endpoint
  pub given : (cfg.endpoints_set ≡ true) × (cfg.endpoints ≡ some list)
  pub few : length list ≤ max_endpoints
  pub ports : HasPorts mode cfg
  pub each : All IsEndpoint list
  pub hosts : Distinct (map host_key list)
  pub vsock_ports : Distinct (map (λ ep. ep.vsock_port) list)
  pub bind_addrs : Distinct (binds 0 list)

-- the text `ip:port`
abbrev shown : Bytes × ℕ → Bytes
shown (ip, port) = ip ++ b':' ∷ itoa port

local_addrs-map : (i : ℕ) (eps : List Endpoint) → local_addrs i eps ≡ map shown (binds i eps)
local_addrs-map i [] = refl
local_addrs-map i (ep ∷ eps) = ap (◌∷◌ (local_addr ep i)) (local_addrs-map (i + 1) eps)

pub bind_ips :
    (i : ℕ) (eps : List Endpoint) → All IsEndpoint eps → All (λ b. Lacks b':' b.0) (binds i eps)
bind_ips i [] h = tt
bind_ips i (ep ∷ eps) (v, vs) = (
  All-map IsIpByte (λ c. c ≢ b':') (endpoint_local_ip ep i) (λ c d. ground arith)
      (endpoint_local_ip-IsIpByte ep i v),
  bind_ips (i + 1) eps vs,
)

shown_injective : (x y : Bytes × ℕ) → Lacks b':' x.0 → Lacks b':' y.0 → shown x ≡ shown y → x ≡ y
shown_injective (ip, p) (jp, q) h k e =
    let (ips, ports) = cut_at b':' ip jp h k e in let same = itoa_injective p q ports in cc

-- The texts that the source compares differ exactly if the pairs of address and port do.
pub addrs_iff :
    (i : ℕ) (eps : List Endpoint)
    → All IsEndpoint eps
    → Distinct (local_addrs i eps) ↔ Distinct (binds i eps)
addrs_iff i eps v = (
  λ d. Distinct-of_map shown (binds i eps) (rw (← local_addrs-map i eps) d),
  λ d.
      rw (local_addrs-map i eps) (
        Distinct-map shown (λ b. Lacks b':' b.0) shown_injective (binds i eps) (bind_ips i eps v)
          d),
)

check_ports_iff :
    (cfg : Config) (mode : ValidationMode) → (check_ports cfg mode ≡ ok tt) ↔ HasPorts mode cfg
unfolding check_ports
check_ports_iff cfg host = ground arith
check_ports_iff cfg enclave = ground arith
check_ports_iff cfg (other m) = ground arith

-- What is tested before the loop.
record Header (mode : ValidationMode) (cfg : Config) (eps : List Endpoint) : Type 0 where
  version : equal cfg.schema_version schema_version_v01 ≡ true
  set : cfg.endpoints_set ≡ true
  few : length eps ≤ max_endpoints
  ports : check_ports cfg mode ≡ ok tt
  loop : check_endpoints [] [] [] 0 eps ≡ ok tt

check_config-Header :
    (cfg : Config) (mode : ValidationMode) (eps : List Endpoint)
    → cfg.endpoints ≡ some eps
    → (check_config cfg mode ≡ ok tt) ↔ Header mode cfg eps
unfolding check_config
check_config-Header cfg mode eps e = (λ h. ground arith, λ r. ground arith)

no_list :
    (cfg : Config) (mode : ValidationMode) → cfg.endpoints ≡ none → check_config cfg mode ≢ ok tt
unfolding check_config
no_list cfg mode e h = ground arith

check_config-IsConfig :
    (cfg : Config) (mode : ValidationMode) → check_config cfg mode ≡ ok tt → IsConfig mode cfg
check_config-IsConfig cfg mode h = elim (Option-cases cfg.endpoints) [
  | inl e ↦ absurd (no_list cfg mode e h)
  | inr (eps, e) ↦
      let r = (check_config-Header cfg mode eps e).0 h in
      let c = check_endpoints-Checked eps [] [] [] 0 r.loop in
      record {
        version = (equal_iff cfg.schema_version schema_version_v01).0 r.version;
        list = eps;
        given = (r.set, e);
        few = r.few;
        ports = (check_ports_iff cfg mode).0 r.ports;
        each = c.each;
        hosts = c.new_hosts.1;
        vsock_ports = c.new_ports.1;
        bind_addrs = (addrs_iff 0 eps c.each).0 c.new_addrs.1;
      }
]

IsConfig-check_config :
    (cfg : Config) (mode : ValidationMode) → IsConfig mode cfg → check_config cfg mode ≡ ok tt
IsConfig-check_config cfg mode c = (check_config-Header cfg mode c.list c.given.1).1 (record {
  version = (equal_iff cfg.schema_version schema_version_v01).1 c.version;
  set = c.given.0;
  few = c.few;
  ports = (check_ports_iff cfg mode).1 c.ports;
  loop = Checked-check_endpoints c.list [] [] [] 0 (record {
    each = c.each;
    new_hosts = DistinctFrom-nil _ c.hosts;
    new_ports = DistinctFrom-nil _ c.vsock_ports;
    new_addrs = DistinctFrom-nil _ ((addrs_iff 0 c.list c.each).1 c.bind_addrs);
  });
})

-- `ValidateConfig` accepts exactly the configurations that are good once normalized: schema v0.1,
-- at most 191 endpoints in an array, the ports that the mode needs, every endpoint valid, and no
-- two endpoints with the same host (up to case), vsockPort, or pair of bind address and port.
pub validate_config_iff :
    (cfg : Config) (mode : ValidationMode)
    → ((validate_config (some cfg) mode).1 ≡ ok tt) ↔ IsConfig mode (normalize_config cfg)
unfolding validate_config
validate_config_iff cfg mode = (
  check_config-IsConfig (normalize_config cfg) mode,
  IsConfig-check_config (normalize_config cfg) mode,
)
