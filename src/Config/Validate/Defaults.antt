-- ===== src/Config/Validate/Defaults.antt =====
-- config.go: `normalizeConfig`, and the ports of an accepted configuration.
use mathlib.Core.Option
use argonaut.Config.Check.{IsEndpoint}
use argonaut.Config.Schema.{
  Endpoint, Config, ValidationMode, normalize_endpoint, normalize_config, schema_version_v01,
}
use argonaut.Config.Validate.Spec.{IsConfig, validate_config_iff}
use argonaut.Config.Validate.{validate_config}
use argonaut.Prelude.{
  inl, inr, ℕ, ◌≤◌, ◌≡◌, refl, ap, List, [], ◌∷◌, map, arith, equal, Bool-cases, All, Option, none,
  some, ok, if◌then◌else◌,
}

normalize_endpoint_idem :
    (ep : Endpoint) → normalize_endpoint (normalize_endpoint ep) ≡ normalize_endpoint ep
unfolding normalize_endpoint
normalize_endpoint_idem ep = ground arith

map_idem :
    (eps : List Endpoint)
    → map normalize_endpoint (map normalize_endpoint eps) ≡ map normalize_endpoint eps
map_idem [] = refl
map_idem (ep ∷ eps) = rw (normalize_endpoint_idem ep, map_idem eps)

abbrev version : List ℕ → List ℕ
version v = if equal v [] then schema_version_v01 else v

version_idem : (v : List ℕ) → version (version v) ≡ version v
unfolding equal
version_idem [] = refl
version_idem (c ∷ v) = refl

endpoints_idem :
    (eps : Option (List Endpoint))
    → Option.map (map normalize_endpoint) (Option.map (map normalize_endpoint) eps)
      ≡ Option.map (map normalize_endpoint) eps
endpoints_idem none = refl
endpoints_idem (some eps) = ap some (map_idem eps)

-- Normalizing twice is normalizing once.
pub normalize_config_idem :
    (cfg : Config) → normalize_config (normalize_config cfg) ≡ normalize_config cfg
unfolding normalize_config
normalize_config_idem cfg = λ i. record cfg {
  schema_version = version_idem cfg.schema_version i;
  endpoints = endpoints_idem cfg.endpoints i;
}

-- Every port that the bridges use is in range.
pub record IsUsable (ep : Endpoint) : Type 0 where
  pub vsock_port : (1 ≤ ep.vsock_port) × (ep.vsock_port ≤ 65535)
  pub tcp_port : 1 ≤ ep.tcp_port
  pub local_port : 1 ≤ ep.local_port

normalize_endpoint-IsUsable :
    (ep : Endpoint) → IsEndpoint (normalize_endpoint ep) → IsUsable (normalize_endpoint ep)
unfolding normalize_endpoint
normalize_endpoint-IsUsable ep v = record {
  vsock_port = v.vsock_port;
  tcp_port = elim (Bool-cases ep.tcp_port_set) [
    | inl e ↦ v.tcp_port e
    | inr e ↦ rw e (omega arith)
  ];
  local_port = elim (Bool-cases ep.local_port_set) [
    | inl e ↦ v.local_port e
    | inr e ↦ rw e (omega arith)
  ];
}

map-IsUsable :
    (eps : List Endpoint)
    → All IsEndpoint (map normalize_endpoint eps)
    → All IsUsable (map normalize_endpoint eps)
map-IsUsable [] h = tt
map-IsUsable (ep ∷ eps) (v, vs) = (normalize_endpoint-IsUsable ep v, map-IsUsable eps vs)

normalized_endpoints :
    (cfg : Config) (eps : List Endpoint)
    → cfg.endpoints ≡ some eps
    → (normalize_config cfg).endpoints ≡ some (map normalize_endpoint eps)
unfolding normalize_config
normalized_endpoints cfg eps e = rw e

IsConfig-IsUsable :
    (cfg : Config) (mode : ValidationMode) (eps : List Endpoint)
    → cfg.endpoints ≡ some eps
    → IsConfig mode (normalize_config cfg)
    → All IsUsable (map normalize_endpoint eps)
IsConfig-IsUsable cfg mode eps e c =
    let same : c.list ≡ map normalize_endpoint eps =
      cc (c.given.1, normalized_endpoints cfg eps e) in
    map-IsUsable eps (rw same at c.each)

-- When `ValidateConfig` accepts, it leaves the normalized configuration behind: its endpoints, in
-- the same order, have ports that are not 0, given or defaulted, and a second call accepts it and
-- leaves it as it is.
pub validate_config-IsUsable :
    (cfg : Config) (mode : ValidationMode) (eps : List Endpoint)
    → (validate_config (some cfg) mode).1 ≡ ok tt
    → cfg.endpoints ≡ some eps
    → (cfg' : Config) × ((validate_config (some cfg) mode).0 ≡ some cfg')
      × (cfg'.endpoints ≡ some (map normalize_endpoint eps))
      × All IsUsable (map normalize_endpoint eps)
      × (validate_config (some cfg') mode ≡ (some cfg', ok tt))
unfolding validate_config
validate_config-IsUsable cfg mode eps h e = (
  normalize_config cfg,
  refl,
  normalized_endpoints cfg eps e,
  IsConfig-IsUsable cfg mode eps e ((validate_config_iff cfg mode).0 h),
  rw (normalize_config_idem cfg, h),
)
