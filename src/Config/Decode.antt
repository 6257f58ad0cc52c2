-- ===== src/Config/Decode.antt =====
-- config.go: the two `UnmarshalJSON`, `ParseConfig` and `readAllLimited`.
pub mod Endpoints
pub mod Typed
pub mod Encode
pub mod RoundTrip
pub mod Extra
use argonaut.Config.Schema.{Endpoint, Config, normalize_config, max_config_bytes}
use argonaut.Json.Decode.{
  DecodeError, wrong_value, unknown_field, decode_text, decode_uint, is_field,
}
use argonaut.Json.Parse.{parse_json}
use argonaut.Json.Value.{
  Json, Items, Members, null, bool, number, text, array, object, items, members, find,
}
use argonaut.Nsm.Lines.{InputEnd, eof, broken}
use argonaut.Prelude.{
  ℕ, zero, suc, ◌+◌, Bool, true, false, ◌&&◌, ◌||◌, List, [], ◌∷◌, ◌++◌, Option, none, some, Result,
  ok, err, ◌>>=◌, ◌>>◌, require, map_err, Bytes, codes, length, take, drop, equal, ltb,
  if◌then◌else◌,
}

-- `var endpoint Endpoint`
abbrev pub zero_endpoint : Endpoint
zero_endpoint = record {
  host = [];
  vsock_port = 0;
  tcp_port = 0;
  local_port = 0;
  local_ip = [];
  host_set = false;
  vsock_port_set = false;
  tcp_port_set = false;
  local_port_set = false;
  local_ip_set = false;
}

-- `var cfg Config`
abbrev pub zero_config : Config
zero_config = record {
  schema_version = [];
  http_port = 0;
  http_vsock_port = 0;
  http_tcp_port = 0;
  endpoints = none;
  endpoints_set = false;
}

-- `if v, ok := raw[key]; ok { ... }`
unfoldable pub if_present :
    Option Json
    → (Endpoint → Json → Result DecodeError Endpoint)
    → Endpoint
    → Result DecodeError Endpoint
if_present none store e = ok e
if_present (some v) store e = store e v

unfoldable pub store_host : Endpoint → Json → Result DecodeError Endpoint
store_host e v = do s ← decode_text e.host v; ok (record e { host = s; host_set = true })

unfoldable pub store_vsock_port : Endpoint → Json → Result DecodeError Endpoint
store_vsock_port e v = do
  n ← decode_uint 32 e.vsock_port v
  ok (record e { vsock_port = n; vsock_port_set = true })

unfoldable pub store_tcp_port : Endpoint → Json → Result DecodeError Endpoint
store_tcp_port e v = do
  n ← decode_uint 16 e.tcp_port v
  ok (record e { tcp_port = n; tcp_port_set = true })

unfoldable pub store_local_port : Endpoint → Json → Result DecodeError Endpoint
store_local_port e v = do
  n ← decode_uint 16 e.local_port v
  ok (record e { local_port = n; local_port_set = true })

unfoldable pub store_local_ip : Endpoint → Json → Result DecodeError Endpoint
store_local_ip e v = do
  s ← decode_text e.local_ip v
  ok (record e { local_ip = s; local_ip_set = true })

-- the `switch key`
is_endpoint_key : Bytes → Bool
is_endpoint_key key =
    equal key (codes "host")
    || equal key (codes "vsockPort")
    || equal key (codes "tcpPort")
    || equal key (codes "localPort")
    || equal key (codes "localIP")

unfoldable pub known_fields : List (Bytes × Json) → Bool
unfolding is_endpoint_key
known_fields [] = true
known_fields ((k, v) ∷ raw) = is_endpoint_key k && known_fields raw

-- the method behind the decoding of `raw`
unfoldable pub decode_fields : Endpoint → List (Bytes × Json) → Result DecodeError Endpoint
decode_fields e raw = do
  require (known_fields raw) unknown_field
  e1 ← if_present (find (codes "host") raw) store_host e
  e2 ← if_present (find (codes "vsockPort") raw) store_vsock_port e1
  e3 ← if_present (find (codes "tcpPort") raw) store_tcp_port e2
  e4 ← if_present (find (codes "localPort") raw) store_local_port e3
  if_present (find (codes "localIP") raw) store_local_ip e4

-- `(*Endpoint).UnmarshalJSON`; null leaves `raw` without keys.
unfoldable pub decode_endpoint : Endpoint → Json → Result DecodeError Endpoint
decode_endpoint e null = decode_fields e []
decode_endpoint e (object ms) = decode_fields e (members ms)
decode_endpoint e _ = err wrong_value

-- The slice's elements are decoded onto what its backing array holds, zero behind its end.
unfoldable pub decode_elements : List Endpoint → List Json → Result DecodeError (List Endpoint)
decode_elements backing [] = ok []
decode_elements [] (v ∷ vs) = do
  e ← decode_endpoint zero_endpoint v
  es ← decode_elements [] vs
  ok (e ∷ es)
decode_elements (b ∷ backing) (v ∷ vs) = do
  e ← decode_endpoint b v
  es ← decode_elements backing vs
  ok (e ∷ es)

-- The struct while it is decoded, with the backing array of `Endpoints`.
pub record Draft : Type 0 where
  pub config : Config
  pub backing : List Endpoint

-- A shorter array leaves the elements behind it in the backing array; an empty one allocates anew.
unfoldable pub replaced : List Endpoint → List Endpoint → List Endpoint
replaced backing [] = []
replaced backing (e ∷ es) = (e ∷ es) ++ drop (length (e ∷ es)) backing

unfoldable pub store_endpoints : Draft → Json → Result DecodeError Draft
store_endpoints d null =
    ok (record d { config = record d.config { endpoints = none }; backing = [] })
store_endpoints d (array vs) = do
  es ← decode_elements d.backing (items vs)
  ok (record d {
    config = record d.config { endpoints = some es };
    backing = replaced d.backing es;
  })
store_endpoints d _ = err wrong_value

unfoldable pub store_schema_version : Draft → Json → Result DecodeError Draft
store_schema_version d v = do
  s ← decode_text d.config.schema_version v
  ok (record d { config = record d.config { schema_version = s } })

unfoldable pub store_http_port : Draft → Json → Result DecodeError Draft
store_http_port d v = do
  n ← decode_uint 16 d.config.http_port v
  ok (record d { config = record d.config { http_port = n } })

unfoldable pub store_http_vsock_port : Draft → Json → Result DecodeError Draft
store_http_vsock_port d v = do
  n ← decode_uint 32 d.config.http_vsock_port v
  ok (record d { config = record d.config { http_vsock_port = n } })

unfoldable pub store_http_tcp_port : Draft → Json → Result DecodeError Draft
store_http_tcp_port d v = do
  n ← decode_uint 16 d.config.http_tcp_port v
  ok (record d { config = record d.config { http_tcp_port = n } })

-- The fields of `Config` that the decoder knows.
pub data Field : Type 0 where
  schema_version http_port http_vsock_port http_tcp_port endpoints : Field

-- a key's field, whatever its case
unfoldable pub field_of : Bytes → Option Field
field_of key =
    if is_field (codes "schemaVersion") key
    then some schema_version
    else if is_field (codes "httpPort") key
    then some http_port
    else if is_field (codes "httpVsockPort") key
    then some http_vsock_port
    else if is_field (codes "httpTcpPort") key
    then some http_tcp_port
    else if is_field (codes "endpoints") key
    then some endpoints
    else none

unfoldable pub store_field : Option Field → Draft → Json → Result DecodeError Draft
store_field none d v = ok d
store_field (some schema_version) d v = store_schema_version d v
store_field (some http_port) d v = store_http_port d v
store_field (some http_vsock_port) d v = store_http_vsock_port d v
store_field (some http_tcp_port) d v = store_http_tcp_port d v
store_field (some endpoints) d v = store_endpoints d v

-- `json.Unmarshal(data, &alias)`, member by member
unfoldable pub store_members : Draft → List (Bytes × Json) → Result DecodeError Draft
store_members d [] = ok d
store_members d ((k, v) ∷ ms) = do d' ← store_field (field_of k) d v; store_members d' ms

-- `_, ok := raw[key]`
unfoldable pub has_key : Bytes → List (Bytes × Json) → Bool
has_key key raw = elim (find key raw) [ none ↦ false | some v ↦ true ]

unfoldable pub decode_members : List (Bytes × Json) → Result DecodeError Config
decode_members raw = do
  d ← store_members (record { config = zero_config; backing = [] }) raw
  ok (record d.config { endpoints_set = has_key (codes "endpoints") raw })

-- `(*Config).UnmarshalJSON`
unfoldable pub decode_config : Json → Result DecodeError Config
decode_config null = decode_members []
decode_config (object ms) = decode_members (members ms)
decode_config _ = err wrong_value

pub data ParseConfigError : Type 0 where
  config_too_large : ℕ → ParseConfigError
  invalid_config_json : ParseConfigError

-- What stands behind the `%w` of the error is not kept.
unfoldable pub parse_config : Bytes → Result ParseConfigError Config
parse_config raw =
    if ltb max_config_bytes (length raw) then err (config_too_large (length raw)) else (do
      v ← map_err (λ e. invalid_config_json) (parse_json raw)
      cfg ← map_err (λ e. invalid_config_json) (decode_config v)
      ok (normalize_config cfg))

pub data ReadAllError : Type 0 where
  input_too_large : ℕ → ReadAllError
  read_failed : Bytes → ReadAllError

-- `io.ReadAll` of at most `limit + 1` bytes: how the input ends counts only if that is seen.
unfoldable pub read_all_limited : Bytes → InputEnd → ℕ → Result ReadAllError Bytes
read_all_limited input input_end limit =
    if ltb limit (length input)
    then err (input_too_large (length (take (limit + 1) input)))
    else elim input_end [ eof ↦ ok input | broken why ↦ err (read_failed why) ]
