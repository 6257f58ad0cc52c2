-- ===== src/Config/Schema.antt =====
-- config.go: the structs, the constants and `normalizeConfig`.
use argonaut.Prelude.{ℕ, ◌^◌, Bool, List, [], map, Option, Bytes, codes, equal, if◌then◌else◌}
use mathlib.Core.Option

abbrev pub schema_version_v01 : Bytes
schema_version_v01 = codes "v0.1"

abbrev pub max_config_bytes : ℕ
max_config_bytes = 2 ^ 20

abbrev pub max_endpoints : ℕ
max_endpoints = 191

abbrev pub default_tcp_port : ℕ
default_tcp_port = 443

-- The Go type is a string; `other` is a value that is neither constant.
pub data ValidationMode : Type 0 where
  host enclave : ValidationMode
  other : Bytes → ValidationMode

pub record Endpoint : Type 0 where
  pub host : Bytes
  pub vsock_port : ℕ  -- uint32
  pub tcp_port : ℕ  -- uint16
  pub local_port : ℕ  -- uint16
  pub local_ip : Bytes
  pub host_set : Bool
  pub vsock_port_set : Bool
  pub tcp_port_set : Bool
  pub local_port_set : Bool
  pub local_ip_set : Bool

pub record Config : Type 0 where
  pub schema_version : Bytes
  pub http_port : ℕ  -- uint16
  pub http_vsock_port : ℕ  -- uint32
  pub http_tcp_port : ℕ  -- uint16
  pub endpoints : Option (List Endpoint)
  pub endpoints_set : Bool

-- the body of the loop of `normalizeConfig`
unfoldable pub normalize_endpoint : Endpoint → Endpoint
normalize_endpoint ep = record ep {
  tcp_port = if ep.tcp_port_set then ep.tcp_port else default_tcp_port;
  local_port = if ep.local_port_set then ep.local_port else default_tcp_port;
}

unfoldable pub normalize_config : Config → Config
normalize_config cfg = record cfg {
  schema_version = if equal cfg.schema_version [] then schema_version_v01 else cfg.schema_version;
  endpoints = Option.map (map normalize_endpoint) cfg.endpoints;
}
