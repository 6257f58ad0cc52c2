-- ===== src/Bridge/Accept.antt =====
-- main.go: the accept loops of the four bridges, as steps on what the loop and its goroutines
-- share.
pub mod Admission
pub mod Removal
pub mod Occupancy
use argonaut.Bridge.Limiter.{ConnectionLimiter, new_connection_limiter, try_acquire, release}
use argonaut.Bridge.Plan.{
  Bridge, host_inbound, host_outbound, inbound, outbound, Address, tcp, vsock, dial_address,
}
use argonaut.Config.Schema.{Endpoint}
use argonaut.Prelude.{
  ◌≡◌, ℕ, zero, suc, Bool, true, false, List, [], ◌∷◌, Option, none, some, ◌==◌, Bytes,
  if◌then◌else◌,
}

-- `conn.RemoteAddr()`: a `*vsock.Addr`, or an address of another type.
pub data PeerAddr : Type 0 where
  vsock_addr : (context_id port : ℕ) → PeerAddr
  other_addr : PeerAddr

pub record Conn : Type 0 where
  pub id : ℕ
  pub remote_addr : PeerAddr

unfoldable pub vsock_peer_cid_matches : Conn → ℕ → Bool
vsock_peer_cid_matches conn expected_cid = elim conn.remote_addr [
  | vsock_addr cid port ↦ cid == expected_cid
  | other_addr ↦ false
]

-- A goroutine that bridges a connection to an address.
pub record Bridged : Type 0 where
  pub conn : Conn
  pub target : Address

pub record LoopState : Type 0 where
  pub limiter : ConnectionLimiter
  pub active : List Bridged
  pub closed : List Conn

abbrev pub initial : ℕ → LoopState
initial max = record { limiter = new_connection_limiter max; active = []; closed = [] }

close : Conn → LoopState → LoopState
close conn s = record s { closed = conn ∷ s.closed }

-- `if !limiter.tryAcquire() { conn.Close(); continue }`, then the `go` statement
start : Conn → Address → LoopState → LoopState
unfolding close
start conn target s =
    let acquired = try_acquire s.limiter in
    if acquired.1
    then record s {
      limiter = acquired.0;
      active = record { conn = conn; target = target } ∷ s.active;
    }
    else close conn (record s { limiter = acquired.0 })

-- The body of each loop, after `Accept`; none is an error of it.
host_inbound_turn : ℕ → ℕ → ℕ → Option Conn → LoopState → LoopState
host_inbound_turn tcp_port cid vsock_port none s = s
host_inbound_turn tcp_port cid vsock_port (some conn) s =
    start conn (dial_address (host_inbound tcp_port cid vsock_port)) s

host_outbound_turn : Endpoint → ℕ → Option Conn → LoopState → LoopState
unfolding close
host_outbound_turn ep expected_cid none s = s
host_outbound_turn ep expected_cid (some conn) s =
    if vsock_peer_cid_matches conn expected_cid
    then start conn (dial_address (host_outbound ep expected_cid)) s
    else close conn s

inbound_turn : ℕ → ℕ → ℕ → Option Conn → LoopState → LoopState
unfolding close
inbound_turn vsock_port tcp_port expected_cid none s = s
inbound_turn vsock_port tcp_port expected_cid (some conn) s =
    if vsock_peer_cid_matches conn expected_cid
    then start conn (dial_address (inbound vsock_port tcp_port expected_cid)) s
    else close conn s

outbound_turn : Bytes → Endpoint → Option Conn → LoopState → LoopState
outbound_turn local_ip ep none s = s
outbound_turn local_ip ep (some conn) s = start conn (dial_address (outbound local_ip ep)) s

-- One turn of the loop of a bridge.
unfoldable pub turn : Bridge → Option Conn → LoopState → LoopState
unfolding start host_inbound_turn host_outbound_turn inbound_turn outbound_turn
turn (host_inbound tcp_port cid vsock_port) = host_inbound_turn tcp_port cid vsock_port
turn (host_outbound ep expected_cid) = host_outbound_turn ep expected_cid
turn (inbound vsock_port tcp_port expected_cid) = inbound_turn vsock_port tcp_port expected_cid
turn (outbound local_ip ep) = outbound_turn local_ip ep

-- The active list less its entry at an index, and that entry.
unfoldable pub remove_at {ℓ} : {A : Type ℓ} → ℕ → List A → Option (A × List A)
remove_at i [] = none
remove_at zero (x ∷ xs) = some (x, xs)
remove_at (suc i) (x ∷ xs) = elim (remove_at i xs) [ none ↦ none | some (y, ys) ↦ some (y, x ∷ ys) ]

-- The end of a goroutine: the bridge closes its connection, then `limiter.release()` runs. It is
-- none where there is no such goroutine or the release blocks.
unfoldable pub finish : ℕ → LoopState → Option LoopState
unfolding remove_at
finish i s = elim (remove_at i s.active) [
  | none ↦ none
  | some (done, rest) ↦ elim (release s.limiter) [
    | none ↦ none
    | some l ↦ some (record { limiter = l; active = rest; closed = done.conn ∷ s.closed })
  ]
]

-- The loop and its goroutines in any interleaving, with the connections accepted, the last first.
pub data Reach (b : Bridge) (max : ℕ) : List Conn → LoopState → Type 0 where
  started : Reach b max [] (initial max)
  failed : {cs : List Conn} {s : LoopState} → Reach b max cs s → Reach b max cs (turn b none s)
  accepted :
      {cs : List Conn} {s : LoopState} (conn : Conn)
      → Reach b max cs s
      → Reach b max (conn ∷ cs) (turn b (some conn) s)
  ended :
      {cs : List Conn} {s s' : LoopState} (i : ℕ)
      → Reach b max cs s
      → finish i s ≡ some s'
      → Reach b max cs s'
