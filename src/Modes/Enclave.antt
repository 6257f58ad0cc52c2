-- ===== src/Modes/Enclave.antt =====
-- main.go: `enclaveMode`.
pub mod Ready
use argonaut.Bridge.Plan.{enclave_bridges, endpoint_list}
use argonaut.Config.Decode.{parse_config, read_all_limited}
use argonaut.Config.Schema.{Config, enclave, max_config_bytes}
use argonaut.Hosts.File.{write_hosts, HostsError}
use argonaut.Hosts.{hosts_path}
use argonaut.Loopback.{ensure_loopback_up}
use argonaut.Modes.Calls.{
  Calls, Exit, serving, fatal, config_unparsed, config_invalid, input_unread, loopback_down,
  hosts_unwritten, Fatal, or_fatal, validated, start_all,
}
use argonaut.Nsm.Lines.{InputEnd}
use argonaut.Prelude.{ℕ, List, [], ◌∷◌, Option, none, some, Bytes, Result, ok, err}

module _ {S : Type 0} (calls : Calls S) where
  -- `if err := ...; err != nil { log.Fatalf(...) }`
  abbrev pub unless_failed : {E : Type 0} → Option E × S → (E → Fatal) → (S → Exit × S) → Exit × S
  unless_failed (some e, s) why next = (fatal (why e), s)
  unless_failed (none, s) why next = next s

  -- from the validated configuration on
  unfoldable pub serve_enclave : Config → S → Exit × S
  serve_enclave cfg s = unless_failed (ensure_loopback_up calls.net s) loopback_down (λ s1.
      unless_failed (write_hosts calls.files hosts_path (endpoint_list cfg) s1) hosts_unwritten
        (λ s2. (serving, start_all calls (enclave_bridges cfg) s2)))

  -- behind the reading of standard input
  configured : (Bytes × InputEnd) × S → Exit × S
  configured ((input, input_end), s) =
      or_fatal (read_all_limited input input_end max_config_bytes, s) input_unread
        (λ raw s1.
          or_fatal (parse_config raw, s1) config_unparsed
            (λ parsed s2. or_fatal (validated parsed enclave, s2) config_invalid serve_enclave))

  unfoldable pub enclave_mode : S → Exit × S
  unfolding configured
  enclave_mode s = configured (calls.read_stdin s)
