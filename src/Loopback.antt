-- ===== src/Loopback.antt =====
-- loopback_linux.go: `ensureLoopbackUp`, over the system calls that it makes.
pub mod Up
use argonaut.Prelude.{
  ℕ, ◌+◌, ◌%◌, Bool, Option, none, some, Result, ok, err, Bytes, ◌==◌, if◌then◌else◌,
}

-- The calls, with the text of the error where there is one; the socket is a number, and the
-- requests read and set the flags of the interface `lo`.
pub record NetOps (S : Type 0) : Type 0 where
  pub socket : S → Result Bytes ℕ × S
  pub new_ifreq : S → Option Bytes × S
  pub get_flags : ℕ → S → Result Bytes ℕ × S
  pub set_flags : ℕ → ℕ → S → Option Bytes × S
  pub close : ℕ → S → S

pub data LoopbackError : Type 0 where
  open_failed prepare_failed read_failed set_failed : Bytes → LoopbackError

-- `flags & unix.IFF_UP != 0`, where IFF_UP is the lowest bit
abbrev pub is_up : ℕ → Bool
is_up flags = flags % 2 == 1

-- `flags | unix.IFF_UP` of flags without it
abbrev pub raised : ℕ → ℕ
raised flags = flags + 1

module _ {S : Type 0} (ops : NetOps S) where
  set_result : Option Bytes × S → Option LoopbackError × S
  set_result (some e, s) = (some (set_failed e), s)
  set_result (none, s) = (none, s)

  raise : ℕ → Result Bytes ℕ × S → Option LoopbackError × S
  unfolding set_result
  raise fd (err e, s) = (some (read_failed e), s)
  raise fd (ok flags, s) =
      if is_up flags then (none, s) else set_result (ops.set_flags fd (raised flags) s)

  request : ℕ → Option Bytes × S → Option LoopbackError × S
  unfolding raise
  request fd (some e, s) = (some (prepare_failed e), s)
  request fd (none, s) = raise fd (ops.get_flags fd s)

  -- what follows the call of `unix.Socket`, with the deferred `unix.Close(fd)`
  with_socket : Result Bytes ℕ × S → Option LoopbackError × S
  unfolding request
  with_socket (err e, s) = (some (open_failed e), s)
  with_socket (ok fd, s) =
      let (error, s') = request fd (ops.new_ifreq s) in (error, ops.close fd s')

  unfoldable pub ensure_loopback_up : S → Option LoopbackError × S
  unfolding with_socket
  ensure_loopback_up s = with_socket (ops.socket s)
