-- ===== src/Modes/Dispatch.antt =====
-- main.go: `main`.
use argonaut.Modes.Calls.{Calls, Exit, usage, nsm_serving}
use argonaut.Modes.Enclave.{enclave_mode}
use argonaut.Modes.Host.{host_mode}
use argonaut.Modes.Transfer.{config_mode}
use argonaut.Prelude.{List, ◌∷◌, Bytes, codes, equal, if◌then◌else◌}

module _ {S : Type 0} (calls : Calls S) where
  -- the `switch os.Args[1]`
  run_mode : Bytes → List Bytes → S → Exit × S
  run_mode mode args s =
      if equal mode (codes "host")
      then host_mode calls args s
      else if equal mode (codes "enclave")
      then enclave_mode calls s
      else if equal mode (codes "config")
      then config_mode calls args s
      else if equal mode (codes "nsm")
      then (nsm_serving, s)
      else (usage, s)

  unfoldable pub main : List Bytes → S → Exit × S
  unfolding run_mode
  main (program ∷ mode ∷ args) s = run_mode mode (program ∷ mode ∷ args) s
  main _ s = (usage, s)
