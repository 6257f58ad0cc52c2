-- ===== src/Tests/DecodeCases.antt =====
-- config.go: reading JSON at concrete inputs.
use argonaut.Config.Decode.Encode.{config_json}
use argonaut.Config.Decode.Extra.{parse_config_extra, schema_members}
use argonaut.Config.Decode.RoundTrip.{parse_config-print}
use argonaut.Config.Decode.Typed.{IsReadConfig, parse_config-IsReadConfig}
use argonaut.Config.Decode.{
  parse_config, invalid_config_json, decode_config, decode_members, store_members, store_field,
  field_of, store_schema_version, store_http_port, store_http_vsock_port, store_http_tcp_port,
  store_endpoints, decode_elements, decode_endpoint, decode_fields, known_fields, if_present,
  store_host, store_vsock_port, store_tcp_port, store_local_port, store_local_ip, replaced, has_key,
}
use argonaut.Config.Schema.{
  Endpoint, Config, normalize_config, normalize_endpoint, max_config_bytes,
}
use argonaut.Json.Decode.{is_field, fold_name, decode_text, decode_uint, parse_uint}
use argonaut.Json.Numbers.{scan_number, complete}
use argonaut.Json.Parse.{parse_json, parse_value, skip_space, lead}
use argonaut.Json.Strings.{scan_string, string_next, ends_string, unquote, quote}
use argonaut.Text.Decimal.{parse_digits, itoa}
use argonaut.Text.Utf8.{rune_width}
use argonaut.Json.Print.{print, print_items, print_members}
use argonaut.Json.Strings.Plain.{plain_bytes, plain_byte, plain_bytes-Plain}
use argonaut.Json.Value.{Members, number, array, no_items, member, no_members, find}
use argonaut.Prelude.{
  ◌≡◌, ◌≤◌, refl, true, false, [], ◌∷◌, some, none, ok, err, Bytes, codes, length, arith, equal,
}

abbrev api : Endpoint
api = record {
  host = codes "api.example";
  vsock_port = 9001;
  tcp_port = 0;
  local_port = 8443;
  local_ip = [];
  host_set = true;
  vsock_port_set = true;
  tcp_port_set = false;
  local_port_set = true;
  local_ip_set = false;
}

abbrev pub small : Config
small = record {
  schema_version = [];
  http_port = 80;
  http_vsock_port = 8000;
  http_tcp_port = 3000;
  endpoints = some (api ∷ []);
  endpoints_set = true;
}

abbrev pub small_text : Bytes
small_text =
    codes
      "{\"schemaVersion\":\"\",\"httpPort\":80,\"httpVsockPort\":8000,\"httpTcpPort\":3000,\"endpoints\":[{\"host\":\"api.example\",\"vsockPort\":9001,\"localPort\":8443}]}"

pub reads : parse_config small_text ≡ ok (normalize_config small)
unfolding parse_config decode_config decode_members store_members store_field field_of is_field
    fold_name store_schema_version store_http_port store_http_vsock_port store_http_tcp_port
    store_endpoints decode_elements decode_endpoint decode_fields known_fields if_present store_host
    store_vsock_port store_tcp_port store_local_port store_local_ip replaced decode_text decode_uint
    parse_uint parse_digits has_key find equal parse_json parse_value skip_space lead scan_string
    string_next ends_string scan_number complete unquote rune_width normalize_config
    normalize_endpoint
reads = refl

-- The key's case and order do not matter for the top level, and null changes nothing there.
abbrev loose_text : Bytes
loose_text =
    codes "{\"extra\": [1.5e3, {}], \"ENDPOINTS\": null, \"httpPort\": 81, \"HttpPort\": null} "

abbrev loose : Config
loose = record {
  schema_version = codes "v0.1";
  http_port = 81;
  http_vsock_port = 0;
  http_tcp_port = 0;
  endpoints = none;
  endpoints_set = false;
}

reads_loose : parse_config loose_text ≡ ok loose
unfolding parse_config decode_config decode_members store_members store_field field_of is_field
    fold_name store_schema_version store_http_port store_http_vsock_port store_http_tcp_port
    store_endpoints decode_elements decode_endpoint decode_fields known_fields if_present store_host
    store_vsock_port store_tcp_port store_local_port store_local_ip replaced decode_text decode_uint
    parse_uint parse_digits has_key find equal parse_json parse_value skip_space lead scan_string
    string_next ends_string scan_number complete unquote rune_width normalize_config
    normalize_endpoint
reads_loose = refl

refuses :
    (parse_config (codes "{\"httpPort\":65536}") ≡ err invalid_config_json)
    × (parse_config (codes "{\"httpPort\":8e1}") ≡ err invalid_config_json)
    × (parse_config (codes "{\"endpoints\":[{\"Host\":\"a\"}]}") ≡ err invalid_config_json)
    × (parse_config (codes "{} {}") ≡ err invalid_config_json)
    × (parse_config [] ≡ err invalid_config_json)
unfolding parse_config decode_config decode_members store_members store_field field_of is_field
    fold_name store_schema_version store_http_port store_http_vsock_port store_http_tcp_port
    store_endpoints decode_elements decode_endpoint decode_fields known_fields if_present store_host
    store_vsock_port store_tcp_port store_local_port store_local_ip replaced decode_text decode_uint
    parse_uint parse_digits has_key find equal parse_json parse_value skip_space lead scan_string
    string_next ends_string scan_number complete unquote rune_width normalize_config
    normalize_endpoint
refuses = (refl, refl, refl, refl, refl)

parse_config-IsReadConfig_example : IsReadConfig (normalize_config small)
parse_config-IsReadConfig_example =
    parse_config-IsReadConfig small_text (normalize_config small) reads

small_prints : length (print (config_json small)) ≤ max_config_bytes
unfolding print print_items print_members quote rune_width itoa
small_prints = omega arith

parse_config-print_example : parse_config (print (config_json small)) ≡ ok (normalize_config small)
parse_config-print_example =
    parse_config-print small
      (
        omega arith,
        omega arith,
        omega arith,
        ((tt, (omega arith, tt), (omega arith, refl), (omega arith, tt), refl), tt),
      )
      tt
      (
        tt,
        ((plain_bytes-Plain (codes "api.example") (unfold plain_bytes plain_byte in refl), tt), tt),
      )
      small_prints

-- two texts, one of them with a further field
abbrev plain_members : Members
plain_members = member (codes "httpPort") (number (codes "80")) no_members

abbrev extra_members : Members
extra_members = member (codes "app") (array no_items) plain_members

parse_config_extra_example :
    parse_config (codes "{\"httpPort\":80}") ≡ parse_config (codes "{\"app\": [], \"httpPort\":80}")
unfolding parse_json parse_value skip_space lead scan_string string_next ends_string scan_number
    complete unquote rune_width schema_members field_of is_field fold_name equal
parse_config_extra_example =
    parse_config_extra (codes "{\"httpPort\":80}") (codes "{\"app\": [], \"httpPort\":80}")
      plain_members extra_members (omega arith) (omega arith) refl refl refl
