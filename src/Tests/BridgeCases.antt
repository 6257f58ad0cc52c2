-- ===== src/Tests/BridgeCases.antt =====
-- main.go at concrete inputs.
use argonaut.Bridge.Accept.Admission.{PeerAllowed, opened, refused}
use argonaut.Bridge.Accept.Occupancy.{IsServed, count, conns, Reach-keeps, Reach-progress}
use argonaut.Bridge.Accept.{
  Conn, vsock_addr, LoopState, initial, turn, finish, vsock_peer_cid_matches, Reach, started,
  accepted,
}
use argonaut.Bridge.Copy.Schedules.{both, turns, copy_run-received}
use argonaut.Bridge.Copy.{CopyResult, error_of, Streams, copy_start, copy_run, received}
use argonaut.Bridge.Dial.Closing.{NetworkLaws, Bridges, bridge_functions-Bridges}
use argonaut.Bridge.Dial.{Network, bridge_to_tcp_host, bridge_to_vsock, bridge_to_tcp}
use argonaut.Bridge.Env.Settings.{env_int_lem}
use argonaut.Bridge.Env.{
  pos, negsuc, atoi, parse_bool, Environment, env_int, configured_max_concurrent_connections,
}
use argonaut.Bridge.Idle.{NetConn}
use argonaut.Bridge.Limiter.{try_acquire}
use argonaut.Bridge.Plan.Agreement.{Meets, Forwards, bridges-Distinct, bridges-Forwards}
use argonaut.Bridge.Plan.{
  Bridge, host_outbound, listen_address, join_host_port, endpoint_list, host_bridges,
  enclave_bridges,
}
use argonaut.Bridge.Write.Total.{IsWriter, IsWritten, write_all-IsWritten}
use argonaut.Bridge.Write.{WriteError, Writer, write_all}
use argonaut.Config.Addr.{parse_v4}
use argonaut.Config.Check.{validate_endpoint, endpoint_local_ip, is_loopback_v4}
use argonaut.Config.Hostname.{validate_hostname}
use argonaut.Config.Schema.{Config, host, enclave, normalize_config, normalize_endpoint}
use argonaut.Config.Validate.{
  validate_config, check_config, check_ports, check_endpoints, seen_at, absent,
}
use argonaut.Tests.ConfigCases.{config, sui, two}
use argonaut.Text.Decimal.{itoa, parse_digits}
use argonaut.Prelude.{
  ℕ, suc, ◌+◌, ◌^◌, ◌≤◌, ◌<◌, ◌≡◌, ◌⊎◌, refl, Bool, true, false, List, [], ◌∷◌, ◌++◌, map, none,
  some, Option, equal, Result, ok, err, ap, Bytes, codes, All, Distinct, length, take, arith,
}

-- A loop for one endpoint, with room for one connection, and a peer with another CID.
abbrev loop : Bridge
loop = host_outbound sui 16

abbrev enclave_conn : Conn
enclave_conn = record { id = 1; remote_addr = vsock_addr 16 1024 }

abbrev stranger : Conn
stranger = record { id = 2; remote_addr = vsock_addr 4 1024 }

abbrev trace : List Conn
trace = enclave_conn ∷ stranger ∷ enclave_conn ∷ []

abbrev after : LoopState
after =
    turn loop (some enclave_conn)
      (turn loop (some stranger) (turn loop (some enclave_conn) (initial 1)))

after-Reach : Reach loop 1 trace after
after-Reach = accepted enclave_conn (accepted stranger (accepted enclave_conn started))

-- The stranger is refused, and so is the second connection, which finds no room.
after_closed : (length after.active ≡ 1) × (after.closed ≡ enclave_conn ∷ stranger ∷ [])
unfolding turn try_acquire vsock_peer_cid_matches
after_closed = (refl, refl)

Reach-keeps_example :
    (length after.active ≤ 1)
    × All (IsServed loop) after.active
    × ((p : Conn → Bool) → count p trace ≡ count p (conns after.active) + count p after.closed)
Reach-keeps_example = Reach-keeps loop 1 trace after after-Reach

Reach-progress_example :
    ((i : ℕ)
      → i < length after.active
      → (s' : LoopState) × (finish i after ≡ some s')
        × (length after.active ≡ suc (length s'.active)))
    × ((conn : Conn)
        → PeerAllowed loop conn
        → length after.active < 1
        → turn loop (some conn) after ≡ opened loop conn after)
    × ((conn : Conn)
        → (PeerAllowed loop conn → 1 ≤ length after.active)
        → turn loop (some conn) after ≡ refused conn after)
Reach-progress_example = Reach-progress loop 1 trace after after-Reach

abbrev both_modes : Config
both_modes = config two

abbrev any_addr : Bytes
any_addr = codes "0.0.0.0"

host_accepts : validate_config (some both_modes) host ≡ (some (normalize_config both_modes), ok tt)
unfolding validate_config check_config check_ports check_endpoints seen_at absent validate_endpoint
    validate_hostname normalize_config normalize_endpoint endpoint_local_ip equal itoa
    is_loopback_v4 parse_v4
host_accepts = refl

enclave_accepts :
    validate_config (some both_modes) enclave ≡ (some (normalize_config both_modes), ok tt)
unfolding validate_config check_config check_ports check_endpoints seen_at absent validate_endpoint
    validate_hostname normalize_config normalize_endpoint endpoint_local_ip equal itoa
    is_loopback_v4 parse_v4
enclave_accepts = refl

bridges-Distinct_example :
    Distinct (map (listen_address any_addr) (host_bridges 16 (normalize_config both_modes)))
    × Distinct (map (listen_address any_addr) (enclave_bridges (normalize_config both_modes)))
bridges-Distinct_example =
    bridges-Distinct any_addr 16 both_modes (normalize_config both_modes)
      (normalize_config both_modes) host_accepts enclave_accepts

bridges-Forwards_example :
    (dialer listener : Bridge) × (hs es : List Bridge) × (host_bridges 16
        (normalize_config both_modes)
      ≡ dialer ∷ hs)
    × (enclave_bridges (normalize_config both_modes) ≡ listener ∷ es)
    × Meets dialer listener any_addr 3 16
    × Forwards any_addr 16 (endpoint_list (normalize_config both_modes)) hs es
bridges-Forwards_example =
    bridges-Forwards any_addr 16 both_modes (normalize_config both_modes)
      (normalize_config both_modes) host_accepts enclave_accepts

-- One direction ends with an error, and only one connection has `CloseWrite`.
abbrev streams : Streams Bytes
streams = record {
  copy_a_to_b = (12, none);
  copy_b_to_a = (3, some (codes "reset"));
  a_half_closes = true;
  b_half_closes = false;
}

abbrev schedule : List Bool
schedule = false ∷ true ∷ false ∷ false ∷ true ∷ true ∷ []

copy_run-received_example :
    ((r : CopyResult Bytes)
      → received (copy_run streams schedule copy_start) ≡ some r
      → (r ≡ both streams)
        × ((copy_run streams schedule copy_start).a_write_closed ≡ true)
        × ((copy_run streams schedule copy_start).b_write_closed ≡ false))
    × (3 ≤ turns true schedule
        → 3 ≤ turns false schedule
        → received (copy_run streams schedule copy_start) ≡ some (both streams))
copy_run-received_example = copy_run-received streams schedule

reports_second : error_of (both streams) ≡ some (codes "reset")
unfolding error_of
reports_second = refl

-- A writer that takes at most three bytes a time, and never fails.
abbrev chunked : Writer Bytes Bytes
chunked = record { write = λ w buf. ((length (take 3 buf), none), w ++ take 3 buf) }

take_3 : (buf : Bytes) → take 3 buf ≡ take (length (take 3 buf)) buf
take_3 [] = refl
take_3 (a ∷ []) = refl
take_3 (a ∷ b ∷ []) = refl
take_3 (a ∷ b ∷ c ∷ buf) = refl

length-take_3 : (buf : Bytes) → length (take 3 buf) ≤ length buf
length-take_3 [] = omega arith
length-take_3 (a ∷ []) = omega arith
length-take_3 (a ∷ b ∷ []) = omega arith
length-take_3 (a ∷ b ∷ c ∷ buf) = omega arith

chunked-IsWriter : IsWriter chunked (λ w. w)
chunked-IsWriter = record {
  takes = λ w buf. ap (λ t. w ++ t) (take_3 buf);
  bound = λ w buf. length-take_3 buf;
}

write_all-IsWritten_example :
    (out : Bytes × Option (WriteError Bytes)) × (write_all chunked 8 [] (codes "{\"v\":1}!")
      ≡ some out)
    × IsWritten (λ w. w) [] (codes "{\"v\":1}!") out
write_all-IsWritten_example =
    write_all-IsWritten chunked (λ w. w) chunked-IsWriter 8 [] (codes "{\"v\":1}!") (omega arith)

-- A network where every VSOCK dial succeeds and every TCP dial fails; its state is the open
-- connections.
abbrev last_closed : List Conn → List Conn
last_closed [] = []
last_closed (c ∷ cs) = cs

abbrev idle_conn : NetConn Bytes (List Conn)
idle_conn = record {
  now = λ s. 0;
  read = λ n s. (([], none), s);
  write = λ buf s. ((length buf, none), s);
  set_read_deadline = λ t s. s;
  set_write_deadline = λ t s. s;
  close_write = none;
}

abbrev network : Network Bytes (List Conn)
network = record {
  dial_tcp = λ target s. (err (codes "refused"), s);
  dial_vsock = λ cid port s. (ok stranger, stranger ∷ s);
  methods = λ c. idle_conn;
  copy = λ a b s. (both streams, s);
  close = λ c s. last_closed s;
}

abbrev open_conns : List Conn → List Conn
open_conns s = s

stranger_dialed :
    (s : List Conn) (c : Conn)
    → ◌≡◌ {A = Result Bytes Conn} (ok stranger) (ok c)
    → stranger ∷ s ≡ c ∷ s
stranger_dialed s c h = let e : stranger ≡ c = cc h in ap (λ x. x ∷ s) e

network-NetworkLaws : NetworkLaws network open_conns
network-NetworkLaws = record {
  tcp_opens = λ target s c h. absurd cc;
  tcp_fails = λ target s e h. refl;
  vsock_opens = λ cid port s c h. stranger_dialed s c h;
  vsock_fails = λ cid port s e h. absurd cc;
  copy_keeps = λ idle a b s. refl;
  close_ends = λ c s rest h. ap last_closed h;
}

abbrev held : List Conn
held = enclave_conn ∷ stranger ∷ []

bridge_functions-Bridges_example :
    Bridges network
      (pos 300)
      open_conns
      network-NetworkLaws
      (stranger ∷ [])
      enclave_conn
      (network.dial_tcp (codes "example.com:443") held)
      (bridge_to_tcp_host network (pos 300) enclave_conn (codes "example.com:443") held)
    × Bridges network
        (pos 300)
        open_conns
        network-NetworkLaws
        (stranger ∷ [])
        enclave_conn
        (network.dial_vsock 3 8104 held)
        (bridge_to_vsock network (pos 300) enclave_conn 3 8104 held)
    × Bridges network
        (pos 300)
        open_conns
        network-NetworkLaws
        (stranger ∷ [])
        enclave_conn
        (network.dial_tcp (join_host_port (codes "127.0.0.1") 8104) held)
        (bridge_to_tcp network (pos 300) enclave_conn 8104 held)
bridge_functions-Bridges_example =
    bridge_functions-Bridges network (pos 300) open_conns network-NetworkLaws (stranger ∷ [])
      enclave_conn (codes "example.com:443") 3 8104 held refl

-- Every variable is set to 16.
abbrev sixteen : Environment
sixteen name = itoa 16

env_int_lem_example :
    ((env_int sixteen (codes "N") 7 ≡ 7)
      ⊎ (1 ≤ env_int sixteen (codes "N") 7) × (env_int sixteen (codes "N") 7 < 2 ^ 63))
    × (1 ≤ configured_max_concurrent_connections sixteen)
    × ((n : ℕ) → 1 ≤ n → n < 2 ^ 63 → itoa 16 ≡ itoa n → env_int sixteen (codes "N") 7 ≡ n)
env_int_lem_example = env_int_lem sixteen (codes "N") 7

atoi_cases :
    (atoi (codes "+12") ≡ some (pos 12))
    × (atoi (codes "-3") ≡ some (negsuc 2))
    × (atoi (codes "1e3") ≡ none)
    × (atoi (codes "9223372036854775808") ≡ none)
    × (parse_bool (codes "yes") ≡ none)
    × (parse_bool (codes "F") ≡ some false)
unfolding atoi parse_digits parse_bool equal
atoi_cases = (refl, refl, refl, refl, refl, refl)
