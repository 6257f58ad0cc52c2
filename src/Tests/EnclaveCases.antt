-- ===== src/Tests/EnclaveCases.antt =====
-- main.go: the enclave mode, on a store of files and an interface that is its flags.
use argonaut.Bridge.Plan.{enclave_bridges}
use argonaut.Config.Addr.{parse_v4}
use argonaut.Config.Check.{validate_endpoint, endpoint_local_ip, is_loopback_v4}
use argonaut.Config.Decode.{
  parse_config, decode_config, decode_members, store_members, store_field, field_of,
  store_schema_version, store_http_port, store_http_vsock_port, store_http_tcp_port,
  store_endpoints, decode_elements, decode_endpoint, decode_fields, known_fields, if_present,
  store_host, store_vsock_port, store_tcp_port, store_local_port, store_local_ip, replaced, has_key,
  read_all_limited,
}
use argonaut.Config.Hostname.{validate_hostname}
use argonaut.Config.Schema.{normalize_config, normalize_endpoint}
use argonaut.Config.Validate.{
  validate_config, check_config, check_ports, check_endpoints, seen_at, absent,
}
use argonaut.Hosts.File.{FileOps, write_hosts, write_file_atomic, replace_file, fill_temp, sync_dir}
use argonaut.Hosts.{merge_hosts, validate_all}
use argonaut.Json.Decode.{is_field, fold_name, decode_text, decode_uint, parse_uint}
use argonaut.Json.Numbers.{scan_number, complete}
use argonaut.Json.Parse.{parse_json, parse_value, skip_space, lead}
use argonaut.Json.Strings.{scan_string, string_next, ends_string, unquote}
use argonaut.Json.Value.{find}
use argonaut.Loopback.{NetOps, ensure_loopback_up}
use argonaut.Modes.Calls.{Calls, serving, validated}
use argonaut.Modes.Enclave.{enclave_mode, serve_enclave}
use argonaut.Nsm.Lines.{eof}
use argonaut.Tests.DecodeCases.{small_text}
use argonaut.Text.Decimal.{parse_digits, itoa}
use argonaut.Text.Utf8.{rune_width}
use argonaut.Modes.Enclave.Ready.{IsEnclave, enclave_mode-IsEnclave}
use argonaut.Hosts.File.Atomic.{FileLaws}
use argonaut.Hosts.{hosts_path}
use argonaut.Loopback.Up.{NetLaws}
use argonaut.Tests.FileCases.{Store, disk, disk-FileLaws, store}
use argonaut.Tests.LoopbackCases.{lo, lo-NetLaws}
use argonaut.Prelude.{ℕ, ◌≡◌, refl, ap, none, ok, Option, Bytes, equal, length}

abbrev House : Type 0
House = Store × ℕ

abbrev in_store : {A : Type 0} → (Store → A × Store) → House → A × House
in_store f s = let (a, t) = f s.0 in (a, (t, s.1))

abbrev in_flags : {A : Type 0} → (ℕ → A × ℕ) → House → A × House
in_flags f s = let (a, n) = f s.1 in (a, (s.0, n))

abbrev house_files : FileOps House
house_files = record {
  read_file = λ p. in_store (disk.read_file p);
  create_temp = λ p. in_store (disk.create_temp p);
  write = λ n c. in_store (disk.write n c);
  chmod = λ n m. in_store (disk.chmod n m);
  sync = λ n. in_store (disk.sync n);
  close = λ n. in_store (disk.close n);
  rename = λ a b. in_store (disk.rename a b);
  remove = λ n. in_store (disk.remove n);
  open_dir = λ p. in_store (disk.open_dir p);
}

abbrev house_net : NetOps House
house_net = record {
  socket = in_flags lo.socket;
  new_ifreq = in_flags lo.new_ifreq;
  get_flags = λ fd. in_flags (lo.get_flags fd);
  set_flags = λ fd n. in_flags (lo.set_flags fd n);
  close = λ fd s. (s.0, lo.close fd s.1);
}

abbrev house : Calls House
house = record {
  files = house_files;
  net = house_net;
  read_config = λ path s. (ok small_text, s);
  read_stdin = λ s. ((small_text, eof), s);
  dial = λ cid port s. (ok 4, s);
  write = λ conn buf s. ((length buf, none), s);
  close = λ conn s. s;
  listen = λ port s. (ok 5, s);
  accept = λ listener s. (ok 6, s);
  close_listener = λ listener s. s;
  receive = λ conn s. ((small_text, eof), s);
  write_stdout = λ buf s. (none, s);
  start = λ bridge s. s;
}

abbrev flags : House → ℕ
flags s = s.1

abbrev house_view : House → Bytes → Option Bytes
house_view s = s.0

house-NetLaws : NetLaws house_net flags
house-NetLaws = record {
  socket_keeps = λ s. lo-NetLaws.socket_keeps s.1;
  ifreq_keeps = λ s. lo-NetLaws.ifreq_keeps s.1;
  get_keeps = λ fd s. lo-NetLaws.get_keeps fd s.1;
  get_reads = λ fd n s. lo-NetLaws.get_reads fd n s.1;
  set_done = λ fd n s. lo-NetLaws.set_done fd n s.1;
  set_failed = λ fd n e s. lo-NetLaws.set_failed fd n e s.1;
  close_keeps = λ fd s. lo-NetLaws.close_keeps fd s.1;
}

house-FileLaws : FileLaws house_files house_view hosts_path
house-FileLaws = record {
  read_keeps = λ s. disk-FileLaws.read_keeps s.0;
  read_ok = λ s. disk-FileLaws.read_ok s.0;
  read_none = λ s. disk-FileLaws.read_none s.0;
  create_keeps = λ s. disk-FileLaws.create_keeps s.0;
  create_new = λ s. disk-FileLaws.create_new s.0;
  write_keeps = λ n c s. disk-FileLaws.write_keeps n c s.0;
  write_appends = λ n c b s. disk-FileLaws.write_appends n c b s.0;
  chmod_keeps = λ n q m s. disk-FileLaws.chmod_keeps n q m s.0;
  sync_keeps = λ n q s. disk-FileLaws.sync_keeps n q s.0;
  close_keeps = λ n q s. disk-FileLaws.close_keeps n q s.0;
  open_keeps = λ q s. disk-FileLaws.open_keeps q s.0;
  rename_done = λ n s. disk-FileLaws.rename_done n s.0;
  rename_failed = λ n e s. disk-FileLaws.rename_failed n e s.0;
  remove_keeps = λ n s. disk-FileLaws.remove_keeps n s.0;
}

abbrev booted : House
booted = (store, 8)

serves : (enclave_mode house booted).0 ≡ serving
unfolding parse_config decode_config decode_members store_members store_field field_of is_field
    fold_name store_schema_version store_http_port store_http_vsock_port store_http_tcp_port
    store_endpoints decode_elements decode_endpoint decode_fields known_fields if_present store_host
    store_vsock_port store_tcp_port store_local_port store_local_ip replaced decode_text decode_uint
    parse_uint parse_digits has_key find equal parse_json parse_value skip_space lead scan_string
    string_next ends_string scan_number complete unquote rune_width normalize_config
    normalize_endpoint validated validate_config check_config check_ports check_endpoints seen_at
    absent validate_endpoint validate_hostname endpoint_local_ip is_loopback_v4 parse_v4 itoa
    enclave_bridges enclave_mode serve_enclave read_all_limited ensure_loopback_up write_hosts
    write_file_atomic replace_file fill_temp sync_dir merge_hosts validate_all
serves = refl

abbrev after : House
after = (enclave_mode house booted).1

enclave_mode-IsEnclave_example :
    IsEnclave house flags house-NetLaws house_view house-FileLaws booted after
enclave_mode-IsEnclave_example =
    enclave_mode-IsEnclave house flags house-NetLaws house_view house-FileLaws booted after
      (ap (λ x. (x, after)) serves)
