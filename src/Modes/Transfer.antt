-- ===== src/Modes/Transfer.antt =====
-- main.go: `configMode`, `configSend` and `configRecv`.
pub mod Whole
use argonaut.Config.Decode.{read_all_limited, ReadAllError}
use argonaut.Config.Schema.{max_config_bytes}
use argonaut.Modes.Calls.{
  Calls, Exit, usage, finished, fatal, invalid_cid, invalid_port, input_unread, listen_failed,
  accept_failed, stdout_failed, or_fatal, uint32_arg,
}
use argonaut.Modes.Host.{send_config_vsock}
use argonaut.Nsm.Lines.{InputEnd}
use argonaut.Prelude.{
  ℕ, List, [], ◌∷◌, Option, none, some, Bytes, Result, ok, err, codes, equal, if◌then◌else◌,
}

module _ {S : Type 0} (calls : Calls S) where
  send_input : ℕ → ℕ → (Bytes × InputEnd) × S → Exit × S
  send_input cid port ((input, input_end), s) =
      or_fatal (read_all_limited input input_end max_config_bytes, s) input_unread
        (λ config s1. send_config_vsock calls cid port config (λ s2. (finished, s2)) s1)

  unfoldable pub config_send : List Bytes → S → Exit × S
  unfolding send_input
  config_send (program ∷ mode ∷ action ∷ cid_arg ∷ port_arg ∷ []) s =
      or_fatal (uint32_arg cid_arg, s) invalid_cid
        (λ cid s1.
          or_fatal (uint32_arg port_arg, s1) invalid_port
            (λ port s2. send_input cid port (calls.read_stdin s2)))
  config_send _ s = (usage, s)

  -- behind the write to standard output, which a failure of does not keep open
  printed_config : ℕ → Option Bytes × S → Exit × S
  printed_config conn (some e, s) = (fatal (stdout_failed e), calls.close conn s)
  printed_config conn (none, s) = (finished, calls.close conn s)

  received_config : ℕ → Result ReadAllError Bytes → S → Exit × S
  unfolding printed_config
  received_config conn (err e) s = (fatal (input_unread e), calls.close conn s)
  received_config conn (ok config) s = printed_config conn (calls.write_stdout config s)

  receive_all : ℕ → (Bytes × InputEnd) × S → Exit × S
  unfolding received_config
  receive_all conn ((input, input_end), s) =
      received_config conn (read_all_limited input input_end max_config_bytes) s

  unfoldable pub config_recv : List Bytes → S → Exit × S
  unfolding receive_all
  config_recv (program ∷ mode ∷ action ∷ port_arg ∷ []) s =
      or_fatal (uint32_arg port_arg, s) invalid_port
        (λ port s1. or_fatal (calls.listen port s1) listen_failed (λ listener s2.
          or_fatal (calls.accept listener s2) accept_failed (λ conn s3.
            let s4 = calls.close_listener listener s3 in receive_all conn (calls.receive conn s4))))
  config_recv _ s = (usage, s)

  config_action : Bytes → List Bytes → S → Exit × S
  config_action action args s =
      let sent = config_send args s in
      let got = config_recv args s in
      if equal action (codes "send")
      then sent
      else if equal action (codes "recv")
      then got
      else (usage, s)

  unfoldable pub config_mode : List Bytes → S → Exit × S
  unfolding config_action
  config_mode (program ∷ mode ∷ action ∷ arg ∷ args) s =
      config_action action (program ∷ mode ∷ action ∷ arg ∷ args) s
  config_mode _ s = (usage, s)
