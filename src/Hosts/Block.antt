-- ===== src/Hosts/Block.antt =====
-- hosts.go: the lines of the managed block of valid endpoints.
use argonaut.Config.Address.{endpoint_local_ip-IsIpByte, IsIpByte}
use argonaut.Config.Check.{validate_endpoint, validate_endpoint_iff, IsEndpoint, endpoint_local_ip}
use argonaut.Config.Hostname.{
  IsHostByte, is_host_byte, validate_hostname-IsHostByte, validate_hostname_iff,
}
use argonaut.Config.Schema.{Endpoint}
use argonaut.Hosts.{host_lines, validate_all}
use argonaut.Prelude.{
  ℕ, suc, ◌+◌, ◌≡◌, ◌≢◌, ap, List, [], ◌∷◌, ◌++◌, append_assoc, arith, ok, >>-eq-ok, Bytes, codes,
  All, All-map, All-append, length, length-append, append-nil,
}

pub validate_all-IsEndpoint : (eps : List Endpoint) → validate_all eps ≡ ok tt → All IsEndpoint eps
unfolding validate_all
validate_all-IsEndpoint [] h = tt
validate_all-IsEndpoint (ep ∷ eps) h =
    let (v, vs) = >>-eq-ok (validate_endpoint ep) (validate_all eps) h in
    ((validate_endpoint_iff ep).0 v, validate_all-IsEndpoint eps vs)

-- A byte of a line of the block, up to its newline: no `#`, and no line break.
abbrev pub IsLineByte : ℕ → Type 0
IsLineByte c = (c ≢ b'#') × (c ≢ b'\n') × (c ≢ b'\r')

-- The line without its newline.
abbrev pub entry : Endpoint → ℕ → Bytes
entry ep i = endpoint_local_ip ep i ++ (codes "   " ++ ep.host)

host_byte-IsLineByte : (c : ℕ) → IsHostByte c → IsLineByte c
unfolding is_host_byte
host_byte-IsLineByte c h = ground arith

pub entry-IsLineByte : (ep : Endpoint) (i : ℕ) → IsEndpoint ep → All IsLineByte (entry ep i)
entry-IsLineByte ep i v =
    All-append IsLineByte (endpoint_local_ip ep i) _
      (All-map IsIpByte IsLineByte _ (λ c d. ground arith) (endpoint_local_ip-IsIpByte ep i v))
      (All-append IsLineByte (codes "   ") ep.host (omega arith) (
        All-map IsHostByte IsLineByte ep.host host_byte-IsLineByte
          (validate_hostname-IsHostByte ep.host ((validate_hostname_iff ep.host).1 v.hostname))))

pub host_lines-cons :
    (i : ℕ) (ep : Endpoint) (eps : List Endpoint) (rest : Bytes)
    → host_lines i (ep ∷ eps) ++ rest ≡ entry ep i ++ b'\n' ∷ (host_lines (i + 1) eps ++ rest)
unfolding host_lines
host_lines-cons i ep eps rest = simp append_assoc

pub length-host_lines :
    (i : ℕ) (ep : Endpoint) (eps : List Endpoint)
    → length (host_lines i (ep ∷ eps)) ≡ suc (length (entry ep i)) + length (host_lines (i + 1) eps)
length-host_lines i ep eps =
    let more = host_lines (i + 1) eps in
    omega (
      arith,
      ap length (simp append-nil at (host_lines-cons i ep eps [])),
      length-append (entry ep i) (b'\n' ∷ more),
    )
