-- ===== src/Config/Decode/RoundTrip.antt =====
-- config.go: `ParseConfig` on a configuration that was written out.
use argonaut.Config.Decode.Encode.{
  opt_member, endpoint_members, endpoint_items, slice_json, config_json,
}
use argonaut.Config.Decode.Endpoints.RoundTrip.{decode_elements-endpoint_items}
use argonaut.Config.Decode.Typed.{IsDecodedConfig, AllDecoded}
use argonaut.Config.Decode.{
  Draft, replaced, store_endpoints, store_schema_version, store_http_port, store_http_vsock_port,
  store_http_tcp_port, field_of, store_field, store_members, has_key, decode_members, decode_config,
  parse_config,
}
use argonaut.Config.Schema.{Endpoint, Config, normalize_config, max_config_bytes}
use argonaut.Json.Decode.Widths.{decode_uint-itoa}
use argonaut.Json.Decode.{decode_text, is_field, fold_name}
use argonaut.Json.Numbers.Decimals.{itoa-IsNumber}
use argonaut.Json.Parse.RoundTrip.{IsPrintable, ArePrintable, MembersPrintable, parse_json-print}
use argonaut.Json.Print.{print}
use argonaut.Json.Strings.Plain.{IsPlain, plain_bytes, plain_byte, plain_bytes-Plain}
use argonaut.Json.Value.{Json, Members, no_members, find}
use argonaut.Prelude.{
  ℕ, suc, ◌^◌, ◌<◌, ◌≤◌, ◌≡◌, refl, Bool, true, false, List, [], ◌∷◌, Option, none, some, ok, Bytes,
  codes, length, equal, ltb, arith, All,
}

-- Only a configuration whose `endpoints` key was set has endpoints.
abbrev KeySet : Bool → Option (List Endpoint) → Type 0
KeySet true o = Unit
KeySet false o = o ≡ none

store_slice :
    (d : Draft) (o : Option (List Endpoint))
    → d.backing ≡ []
    → AllDecoded o
    → (backing : List Endpoint) × (store_endpoints d (slice_json o)
        ≡ ok (record d { config = record d.config { endpoints = o }; backing = backing }))
unfolding store_endpoints
store_slice d none b h = ([], refl)
store_slice d (some es) b h =
    (replaced d.backing es, rw (b) (rw (decode_elements-endpoint_items es h)))

abbrev config_of : Bytes → ℕ → ℕ → ℕ → Option (List Endpoint) → Bool → Config
config_of version port vsock tcp o set = record {
  schema_version = version;
  http_port = port;
  http_vsock_port = vsock;
  http_tcp_port = tcp;
  endpoints = o;
  endpoints_set = set;
}

decode_fieldwise :
    (version : Bytes) (port vsock tcp : ℕ) (o : Option (List Endpoint)) (set : Bool)
    → port < 2 ^ 16
    → vsock < 2 ^ 32
    → tcp < 2 ^ 16
    → AllDecoded o
    → KeySet set o
    → decode_config (config_json (config_of version port vsock tcp o set))
      ≡ ok (config_of version port vsock tcp o set)
unfolding decode_config decode_members store_members field_of is_field fold_name store_field
    store_schema_version store_http_port store_http_vsock_port store_http_tcp_port decode_text
    has_key find equal
decode_fieldwise version port vsock tcp o true a b c s k = rw (
  decode_uint-itoa 16 0 port a,
  decode_uint-itoa 32 0 vsock b,
  decode_uint-itoa 16 0 tcp c,
  (store_slice (record { config = config_of version port vsock tcp none false; backing = [] }) o
      refl s).1,
)
decode_fieldwise version port vsock tcp o false a b c s k =
    rw (k, decode_uint-itoa 16 0 port a, decode_uint-itoa 32 0 vsock b, decode_uint-itoa 16 0 tcp c)

decode_config-config_json :
    (cfg : Config)
    → IsDecodedConfig cfg
    → KeySet cfg.endpoints_set cfg.endpoints
    → decode_config (config_json cfg) ≡ ok cfg
decode_config-config_json cfg (a, b, c, s) k =
    decode_fieldwise cfg.schema_version cfg.http_port cfg.http_vsock_port cfg.http_tcp_port
      cfg.endpoints cfg.endpoints_set a b c s k

-- Strings of plain bytes.
abbrev pub IsPlainEndpoint : Endpoint → Type 0
IsPlainEndpoint e = All IsPlain e.host × All IsPlain e.local_ip

abbrev pub ArePlain : Option (List Endpoint) → Type 0
ArePlain none = Unit
ArePlain (some es) = All IsPlainEndpoint es

-- the texts that a configuration is written with are plain
abbrev IsPlainConfig : Config → Type 0
IsPlainConfig cfg = All IsPlain cfg.schema_version × ArePlain cfg.endpoints

opt_member-Printable :
    (d : ℕ) (set : Bool) (k : Bytes) (v : Json) (ms : Members)
    → plain_bytes k ≡ true
    → IsPrintable d v
    → MembersPrintable d ms
    → MembersPrintable d (opt_member set k v ms)
opt_member-Printable d true k v ms hk hv h = (plain_bytes-Plain k hk, hv, h)
opt_member-Printable d false k v ms hk hv h = h

endpoint_members-Printable :
    (d : ℕ) (e : Endpoint) → IsPlainEndpoint e → MembersPrintable d (endpoint_members e)
unfolding plain_bytes plain_byte
endpoint_members-Printable d e (h, i) = opt_member-Printable d e.host_set _ _ _ refl h (
    opt_member-Printable d e.vsock_port_set _ _ _ refl (itoa-IsNumber _) (
      opt_member-Printable d e.tcp_port_set _ _ _ refl (itoa-IsNumber _) (
        opt_member-Printable d e.local_port_set _ _ _ refl (itoa-IsNumber _)
          (opt_member-Printable d e.local_ip_set _ _ no_members refl i tt))))

endpoint_items-Printable :
    (d : ℕ) (es : List Endpoint) → All IsPlainEndpoint es → ArePrintable (suc d) (endpoint_items es)
endpoint_items-Printable d [] h = tt
endpoint_items-Printable d (e ∷ es) (k, h) =
    (endpoint_members-Printable d e k, endpoint_items-Printable d es h)

slice_json-Printable :
    (d : ℕ) (o : Option (List Endpoint)) → ArePlain o → IsPrintable (suc (suc d)) (slice_json o)
slice_json-Printable d none h = tt
slice_json-Printable d (some es) h = endpoint_items-Printable d es h

config_json-Printable :
    (d : ℕ) (cfg : Config) → IsPlainConfig cfg → IsPrintable (suc (suc (suc d))) (config_json cfg)
unfolding plain_bytes plain_byte
config_json-Printable d cfg (v, h) =
    let endpoints =
      opt_member-Printable (suc (suc d)) cfg.endpoints_set (codes "endpoints")
        (slice_json cfg.endpoints) no_members refl (slice_json-Printable d cfg.endpoints h) tt in
    (
      plain_bytes-Plain (codes "schemaVersion") refl,
      v,
      (
        plain_bytes-Plain (codes "httpPort") refl,
        itoa-IsNumber cfg.http_port,
        (
          plain_bytes-Plain (codes "httpVsockPort") refl,
          itoa-IsNumber cfg.http_vsock_port,
          (
            plain_bytes-Plain (codes "httpTcpPort") refl,
            itoa-IsNumber cfg.http_tcp_port,
            endpoints,
          ),
        ),
      ),
    )

-- A configuration in its Go types, with plain ASCII strings and with an empty string or 0 in each
-- field whose flag says that it was not set, that is written as JSON with the keys that its flags
-- say were set, in at most 1048576 bytes, is read back as itself with the defaults filled in.
pub parse_config-print :
    (cfg : Config)
    → IsDecodedConfig cfg
    → KeySet cfg.endpoints_set cfg.endpoints
    → IsPlainConfig cfg
    → length (print (config_json cfg)) ≤ max_config_bytes
    → parse_config (print (config_json cfg)) ≡ ok (normalize_config cfg)
unfolding parse_config
parse_config-print cfg h k p l =
    let small : ltb max_config_bytes (length (print (config_json cfg))) ≡ false = ground arith in
    rw (
      small,
      parse_json-print (config_json cfg) (config_json-Printable 9997 cfg p),
      decode_config-config_json cfg h k,
    )
