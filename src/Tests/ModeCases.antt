-- ===== src/Tests/ModeCases.antt =====
-- main.go: the modes in a world that is the bytes that were sent or printed.

use argonaut.Bridge.Plan.{host_bridges, enclave_bridges}
use argonaut.Bridge.Write.{write_all}
use argonaut.Config.Addr.{parse_v4}
use argonaut.Config.Check.{validate_endpoint, endpoint_local_ip, is_loopback_v4}
use argonaut.Config.Decode.{
  parse_config, decode_config, decode_members, store_members, store_field, field_of,
  store_schema_version, store_http_port, store_http_vsock_port, store_http_tcp_port,
  store_endpoints, decode_elements, decode_endpoint, decode_fields, known_fields, if_present,
  store_host, store_vsock_port, store_tcp_port, store_local_port, store_local_ip, replaced, has_key,
  read_all_limited,
}
use argonaut.Config.Hostname.{validate_hostname}
use argonaut.Config.Schema.{host, normalize_config, normalize_endpoint}
use argonaut.Config.Validate.{
  validate_config, check_config, check_ports, check_endpoints, seen_at, absent,
}
use argonaut.Hosts.File.{
  FileOps, not_exist, write_hosts, write_file_atomic, replace_file, fill_temp, sync_dir,
}
use argonaut.Hosts.{merge_hosts, validate_all}
use argonaut.Json.Decode.{is_field, fold_name, decode_text, decode_uint, parse_uint}
use argonaut.Json.Numbers.{scan_number, complete}
use argonaut.Json.Parse.{parse_json, parse_value, skip_space, lead}
use argonaut.Json.Strings.{scan_string, string_next, ends_string, unquote}
use argonaut.Json.Value.{find}
use argonaut.Loopback.{NetOps, ensure_loopback_up}
use argonaut.Modes.Calls.{
  Calls, start_all, serving, usage, finished, fatal, Fatal, uint32_arg, validated,
}
use argonaut.Modes.Dispatch.{main}
use argonaut.Modes.Enclave.{enclave_mode, serve_enclave}
use argonaut.Modes.Host.Delivery.{Delivers, IsHost, host_mode-IsHost}
use argonaut.Modes.Host.Ends.{Acceptable, host_mode-serves, host_mode-refuses}
use argonaut.Modes.Host.{host_mode, send_config_vsock}
use argonaut.Modes.Meeting.{IsPair, modes-IsPair}
use argonaut.Modes.Transfer.Whole.{
  IsSender, config_send-IsSender, Prints, IsReceiver, config_recv-IsReceiver,
}
use argonaut.Modes.Transfer.{config_send, config_recv, config_mode}
use argonaut.Nsm.Lines.{eof}
use argonaut.Tests.DecodeCases.{small, small_text, reads}
use argonaut.Text.Decimal.{parse_digits, itoa}
use argonaut.Text.Utf8.{rune_width}
use argonaut.Prelude.{
  ℕ, ◌≤◌, ◌≡◌, refl, [], ◌∷◌, ◌++◌, List, none, ok, err, Bytes, codes, length, equal, arith,
  take-length, sym, ap, ◌∙◌,
}

abbrev files : FileOps Bytes
files = record {
  read_file = λ p s. (err not_exist, s);
  create_temp = λ p s. (ok p, s);
  write = λ n c s. (none, s);
  chmod = λ n m s. (none, s);
  sync = λ n s. (none, s);
  close = λ n s. (none, s);
  rename = λ a b s. (none, s);
  remove = λ n s. (none, s);
  open_dir = λ p s. (ok p, s);
}

abbrev net : NetOps Bytes
net = record {
  socket = λ s. (ok 3, s);
  new_ifreq = λ s. (none, s);
  get_flags = λ fd s. (ok 73, s);
  set_flags = λ fd n s. (none, s);
  close = λ fd s. s;
}

-- No call fails; the file, standard input and each connection hold `text`, and a bridge that is
-- started leaves a `+`.
abbrev world : Bytes → Calls Bytes
world text = record {
  files = files;
  net = net;
  read_config = λ path s. (ok text, s);
  read_stdin = λ s. ((text, eof), s);
  dial = λ cid port s. (ok 4, s);
  write = λ conn buf s. ((length buf, none), s ++ buf);
  close = λ conn s. s;
  listen = λ port s. (ok 5, s);
  accept = λ listener s. (ok 6, s);
  close_listener = λ listener s. s;
  receive = λ conn s. ((text, eof), s);
  write_stdout = λ buf s. (none, s ++ buf);
  start = λ bridge s. s ++ b'+' ∷ [];
}

abbrev sent : ℕ → Bytes → Bytes
sent conn s = s

world-Delivers : (text : Bytes) → Delivers (world text) sent
world-Delivers text = record {
  writes = λ conn. record {
    takes = λ s buf. ap (λ t. s ++ t) (sym (take-length buf));
    bound = λ s buf. omega arith;
  };
}

world-Prints : (text : Bytes) → Prints (world text) (λ s. s)
world-Prints text = record { prints = λ buf s h. refl; keeps = λ conn s. refl }

abbrev host_args : List Bytes
host_args = codes "argonaut" ∷ codes "host" ∷ codes "16" ∷ codes "app.json" ∷ []

abbrev enclave_args : List Bytes
enclave_args = codes "argonaut" ∷ codes "enclave" ∷ []

abbrev send_args : List Bytes
send_args = codes "argonaut" ∷ codes "config" ∷ codes "send" ∷ codes "3" ∷ codes "7777" ∷ []

abbrev recv_args : List Bytes
recv_args = codes "argonaut" ∷ codes "config" ∷ codes "recv" ∷ codes "7777" ∷ []

abbrev hello : Bytes
hello = codes "hello"

-- The whole program, by its arguments; the bridges start once the text was sent.
ran :
    (main (world small_text) host_args [] ≡ (serving, small_text ++ codes "++"))
    × (main (world small_text) enclave_args [] ≡ (serving, codes "++"))
    × (main (world hello) send_args [] ≡ (finished, hello))
    × (main (world hello) recv_args [] ≡ (finished, hello))
    × (main (world hello) (codes "argonaut" ∷ codes "config" ∷ codes "send" ∷ []) [] ≡ (usage, []))
    × (main (world hello) (codes "argonaut" ∷ []) [] ≡ (usage, []))
unfolding parse_config decode_config decode_members store_members store_field field_of is_field
    fold_name store_schema_version store_http_port store_http_vsock_port store_http_tcp_port
    store_endpoints decode_elements decode_endpoint decode_fields known_fields if_present store_host
    store_vsock_port store_tcp_port store_local_port store_local_ip replaced decode_text decode_uint
    parse_uint parse_digits has_key find equal parse_json parse_value skip_space lead scan_string
    string_next ends_string scan_number complete unquote rune_width normalize_config
    normalize_endpoint host_mode send_config_vsock write_all validated validate_config check_config
    check_ports check_endpoints seen_at absent validate_endpoint validate_hostname endpoint_local_ip
    is_loopback_v4 parse_v4 itoa host_bridges enclave_bridges enclave_mode serve_enclave
    read_all_limited ensure_loopback_up write_hosts write_file_atomic replace_file fill_temp
    sync_dir merge_hosts validate_all config_send config_recv config_mode main
ran = (refl, refl, refl, refl, refl, refl)

main_runs :
    (main (world small_text) host_args [] ≡ host_mode (world small_text) host_args [])
    × (main (world small_text) enclave_args [] ≡ enclave_mode (world small_text) [])
    × (main (world hello) send_args [] ≡ config_send (world hello) send_args [])
    × (main (world hello) recv_args [] ≡ config_recv (world hello) recv_args [])
unfolding main config_mode equal
main_runs = (refl, refl, refl, refl)

hosted : host_mode (world small_text) host_args [] ≡ (serving, small_text ++ codes "++")
hosted = sym main_runs.0 ∙ ran.0

in_enclave : enclave_mode (world small_text) [] ≡ (serving, codes "++")
in_enclave = sym main_runs.1 ∙ ran.1

host_mode-IsHost_example :
    IsHost
      (world small_text)
      sent
      (world-Delivers small_text)
      host_args
      []
      (small_text ++ codes "++")
host_mode-IsHost_example =
    host_mode-IsHost (world small_text) sent (world-Delivers small_text) host_args []
      (small_text ++ codes "++") hosted

sixteen : uint32_arg (codes "16") ≡ ok 16
unfolding parse_uint parse_digits
sixteen = refl

small_accepted : validated (normalize_config small) host ≡ ok (normalize_config small)
unfolding validated validate_config check_config check_ports check_endpoints seen_at absent
    validate_endpoint validate_hostname normalize_config normalize_endpoint endpoint_local_ip equal
    itoa
small_accepted = refl

-- A connection of `world` takes all of a write.
sent-Willing :
    (text : Bytes) (w : Bytes) (c : ℕ) (s : Bytes)
    → (((world text).write 4 (c ∷ s) w).0.1 ≡ none) × (1 ≤ ((world text).write 4 (c ∷ s) w).0.0)
sent-Willing text w c s = (refl, omega arith)

host_mode-serves_example :
    (wrote : Bytes) × (host_mode (world small_text) host_args []
      ≡ (serving, start_all (world small_text) (host_bridges 16 (normalize_config small)) wrote))
    × (wrote ≡ small_text)
host_mode-serves_example =
    host_mode-serves (world small_text) sent (world-Delivers small_text) (codes "argonaut")
      (codes "host") (codes "16") (codes "app.json") small_text 16 4 (normalize_config small)
      (normalize_config small) [] sixteen refl reads small_accepted refl (sent-Willing small_text)

refused-Acceptable : Acceptable (codes "{") → ⊥
unfolding parse_config parse_json parse_value skip_space lead
refused-Acceptable (parsed, cfg, p, v) = cc

host_mode-refuses_example :
    (why : Fatal) × (host_mode (world (codes "{")) host_args [] ≡ (fatal why, []))
host_mode-refuses_example =
    host_mode-refuses (world (codes "{")) (codes "argonaut") (codes "host") (codes "16")
      (codes "app.json") (codes "{") 16 [] sixteen refl refused-Acceptable

modes-IsPair_example :
    IsPair
      (world small_text)
      sent
      (world-Delivers small_text)
      (world small_text)
      (codes "0.0.0.0")
      (codes "16")
      (small_text ++ codes "++")
      (codes "++")
modes-IsPair_example =
    modes-IsPair (world small_text) sent (world-Delivers small_text) (world small_text)
      (codes "0.0.0.0") (codes "argonaut") (codes "host") (codes "16") (codes "app.json") small_text
      [] (small_text ++ codes "++") [] (codes "++") hosted in_enclave refl refl

config_send-IsSender_example : IsSender (world hello) sent (world-Delivers hello) send_args [] hello
config_send-IsSender_example =
    config_send-IsSender (world hello) sent (world-Delivers hello) send_args [] hello
      (sym main_runs.2 ∙ ran.2)

config_recv-IsReceiver_example :
    IsReceiver (world hello) (λ s. s) (world-Prints hello) recv_args [] hello
config_recv-IsReceiver_example =
    config_recv-IsReceiver (world hello) (λ s. s) (world-Prints hello) recv_args [] hello
      (sym main_runs.3 ∙ ran.3)
