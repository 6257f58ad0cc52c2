-- ===== src/Modes/Host.antt =====
-- main.go: `hostMode` and `sendConfigVSOCK`.
pub mod Delivery
pub mod Ends
use argonaut.Bridge.Plan.{host_bridges}
use argonaut.Bridge.Write.{WriteError, slice, failed, short, write_all}
use argonaut.Config.Decode.{parse_config}
use argonaut.Config.Schema.{host}
use argonaut.Modes.Calls.{
  Calls, Exit, usage, finished, serving, panicked, out_of_fuel, fatal, invalid_cid,
  config_unreadable, config_unparsed, config_invalid, dial_failed, config_unwritten, or_fatal,
  uint32_arg, validated, conn_writer, start_all,
}
use argonaut.Prelude.{ℕ, List, [], ◌∷◌, Option, none, some, Bytes, length}

abbrev pub config_vsock_port : ℕ
config_vsock_port = 7777

module _ {S : Type 0} (calls : Calls S) where
  -- behind `writeAll`: the connection is closed whether or not there is an error
  closed : ℕ → Option (S × Option (WriteError Bytes)) → (S → Exit × S) → S → Exit × S
  closed conn none next s = (out_of_fuel, s)
  closed conn (some (s, some slice)) next s0 = (panicked, s)
  closed conn (some (s, some e)) next s0 = (fatal (config_unwritten e), calls.close conn s)
  closed conn (some (s, none)) next s0 = next (calls.close conn s)

  -- `sendConfigVSOCK`, and what the caller does where it returns
  unfoldable pub send_config_vsock : ℕ → ℕ → Bytes → (S → Exit × S) → S → Exit × S
  unfolding closed
  send_config_vsock cid port config next s =
      or_fatal (calls.dial cid port s) dial_failed (λ conn s1.
        closed conn (write_all (conn_writer calls conn) (length config) s1 config) next s1)

  -- what the mode does with the arguments
  run_host : Bytes → Bytes → S → Exit × S
  run_host cid_arg path s =
      or_fatal (uint32_arg cid_arg, s) invalid_cid
        (λ cid s1. or_fatal (calls.read_config path s1) config_unreadable (λ raw s2.
          or_fatal (parse_config raw, s2) config_unparsed
            (λ parsed s3.
              or_fatal (validated parsed host, s3) config_invalid
                (λ cfg s4.
                  send_config_vsock cid config_vsock_port raw
                    (λ s5. (serving, start_all calls (host_bridges cid cfg) s5)) s4))))

  unfoldable pub host_mode : List Bytes → S → Exit × S
  unfolding run_host
  host_mode (program ∷ mode ∷ cid ∷ path ∷ []) s = run_host cid path s
  host_mode _ s = (usage, s)
