-- ===== src/Config/Check.antt =====
-- config.go: `ValidateEndpoint` and `endpointLocalIP`.
use argonaut.Config.Addr.{parse_v4, is_loopback, Spells}
use argonaut.Config.Addr.Complete.{parse_v4_iff}
use argonaut.Config.Hostname.{HostnameError, validate_hostname, IsHostname, validate_hostname_iff}
use argonaut.Config.Schema.{Endpoint}
use argonaut.Text.Decimal.{itoa}
use argonaut.Prelude.{
  ℕ, ◌+◌, ◌≤◌, ◌<◌, ◌≡◌, ◌≢◌, ◌↔◌, inl, inr, refl, Bool, true, false, not, ◌&&◌, ◌||◌, List, [],
  ◌∷◌, ◌++◌, none, some, equal, Option-cases, Result, ok, ◌>>◌, map_err, require, arith, ltb, ◌==◌,
  if◌then◌else◌, Bytes, codes, length,
}

pub data EndpointError : Type 0 where
  host_empty host_too_long : EndpointError
  host_invalid : HostnameError → EndpointError
  vsock_port_range tcp_port_range local_port_range local_ip_empty local_ip_not_loopback :
      EndpointError

-- `err != nil || !ip.Is4() || !ip.IsLoopback()` is false
unfoldable pub is_loopback_v4 : Bytes → Bool
is_loopback_v4 s = elim (parse_v4 s) [ none ↦ false | some os ↦ is_loopback os ]

unfoldable pub validate_endpoint : Endpoint → Result EndpointError (Unit {0})
validate_endpoint ep = do
  require (not (equal ep.host [])) host_empty
  require (not (ltb 253 (length ep.host))) host_too_long
  map_err host_invalid (validate_hostname ep.host)
  require (not (ep.vsock_port == 0 || ltb 65535 ep.vsock_port)) vsock_port_range
  require (not (ep.tcp_port_set && ep.tcp_port == 0)) tcp_port_range
  require (not (ep.local_port_set && ep.local_port == 0)) local_port_range
  require (not (ep.local_ip_set && equal ep.local_ip [])) local_ip_empty
  require (equal ep.local_ip [] || is_loopback_v4 ep.local_ip) local_ip_not_loopback

unfoldable pub endpoint_local_ip : Endpoint → ℕ → Bytes
endpoint_local_ip ep i =
    if not (equal ep.local_ip []) then ep.local_ip else codes "127.0.0." ++ itoa (64 + i)

-- The text is the canonical dotted print of an address in 127.0.0.0/8.
pub record IsLoopback (s : Bytes) : Type 0 where
  pub rest : List ℕ
  pub spells : Spells (127 ∷ rest) s

-- What `ValidateEndpoint` promises.
pub record IsEndpoint (ep : Endpoint) : Type 0 where
  pub hostname : IsHostname ep.host
  pub host_size : (0 < length ep.host) × (length ep.host ≤ 253)
  pub vsock_port : (1 ≤ ep.vsock_port) × (ep.vsock_port ≤ 65535)
  pub tcp_port : ep.tcp_port_set ≡ true → 1 ≤ ep.tcp_port
  pub local_port : ep.local_port_set ≡ true → 1 ≤ ep.local_port
  pub local_ip_given : ep.local_ip_set ≡ true → ep.local_ip ≢ []
  pub local_ip : ep.local_ip ≢ [] → IsLoopback ep.local_ip

is_loopback_v4-IsLoopback : (s : Bytes) → is_loopback_v4 s ≡ true → IsLoopback s
unfolding is_loopback_v4
is_loopback_v4-IsLoopback s h = elim (Option-cases (parse_v4 s)) [
  | inl e ↦ let h' = rw (e, is_loopback_v4) at h in cc
  | inr (os, e) ↦ first os ((parse_v4_iff s os).0 e) (rw (e, is_loopback_v4) at h)
]
  where
    first : (os : List ℕ) → Spells os s → is_loopback os ≡ true → IsLoopback s
    first [] sp h = cc
    first (a ∷ os) sp h =
        let is : a ≡ 127 = ground arith in record { rest = os; spells = rw is at sp }

-- The tests of `ValidateEndpoint`, all passed.
record Passes (ep : Endpoint) : Type 0 where
  host_given : equal ep.host [] ≡ false
  host_short : length ep.host ≤ 253
  host_valid : validate_hostname ep.host ≡ ok tt
  vsock_port : (1 ≤ ep.vsock_port) × (ep.vsock_port ≤ 65535)
  tcp_port : ep.tcp_port_set ≡ true → 1 ≤ ep.tcp_port
  local_port : ep.local_port_set ≡ true → 1 ≤ ep.local_port
  local_ip_given : ep.local_ip_set ≡ true → equal ep.local_ip [] ≡ false
  local_ip : equal ep.local_ip [] ≡ false → is_loopback_v4 ep.local_ip ≡ true

validate_endpoint-Passes : (ep : Endpoint) → validate_endpoint ep ≡ ok tt → Passes ep
unfolding validate_endpoint
validate_endpoint-Passes ep h = ground arith

Passes-validate_endpoint : (ep : Endpoint) → Passes ep → validate_endpoint ep ≡ ok tt
unfolding validate_endpoint
Passes-validate_endpoint ep p =
    ground (arith, p.tcp_port, p.local_port, p.local_ip_given, p.local_ip)

IsLoopback-is_loopback_v4 : (s : Bytes) → IsLoopback s → is_loopback_v4 s ≡ true
unfolding is_loopback_v4
IsLoopback-is_loopback_v4 s l = rw ((parse_v4_iff s (127 ∷ l.rest)).1 l.spells, is_loopback_v4)

equal-nil : (s : Bytes) → s ≢ [] → equal s [] ≡ false
unfolding equal
equal-nil [] h = absurd (h refl)
equal-nil (c ∷ s) h = refl

nil-equal : (s : Bytes) → equal s [] ≡ false → s ≢ []
unfolding equal
nil-equal [] h = cc
nil-equal (c ∷ s) h = cc

pos-length : (s : Bytes) → s ≢ [] → 0 < length s
pos-length [] h = absurd (h refl)
pos-length (c ∷ s) h = omega arith

length-pos : (s : Bytes) → 0 < length s → s ≢ []
length-pos [] h = absurd (omega arith)
length-pos (c ∷ s) h = cc

Passes-IsEndpoint : (ep : Endpoint) → Passes ep → IsEndpoint ep
Passes-IsEndpoint ep p = record {
  hostname = (validate_hostname_iff ep.host).0 p.host_valid;
  host_size = (pos-length ep.host (nil-equal ep.host p.host_given), p.host_short);
  vsock_port = p.vsock_port;
  tcp_port = p.tcp_port;
  local_port = p.local_port;
  local_ip_given = λ h. nil-equal ep.local_ip (p.local_ip_given h);
  local_ip = λ h. is_loopback_v4-IsLoopback ep.local_ip (p.local_ip (equal-nil ep.local_ip h));
}

IsEndpoint-Passes : (ep : Endpoint) → IsEndpoint ep → Passes ep
IsEndpoint-Passes ep p = record {
  host_given = equal-nil ep.host (length-pos ep.host p.host_size.0);
  host_short = p.host_size.1;
  host_valid = (validate_hostname_iff ep.host).1 p.hostname;
  vsock_port = p.vsock_port;
  tcp_port = p.tcp_port;
  local_port = p.local_port;
  local_ip_given = λ h. equal-nil ep.local_ip (p.local_ip_given h);
  local_ip = λ h. IsLoopback-is_loopback_v4 ep.local_ip (p.local_ip (nil-equal ep.local_ip h));
}

-- `ValidateEndpoint` accepts exactly the endpoints whose host is a host name of at most 253 bytes,
-- whose vsockPort is in 1..65535, whose tcpPort and localPort are not 0 where they are set, and
-- whose localIP, where it is set or not empty, is the canonical print of an address in 127.0.0.0/8.
pub validate_endpoint_iff : (ep : Endpoint) → (validate_endpoint ep ≡ ok tt) ↔ IsEndpoint ep
validate_endpoint_iff ep = (
  λ h. Passes-IsEndpoint ep (validate_endpoint-Passes ep h),
  λ p. Passes-validate_endpoint ep (IsEndpoint-Passes ep p),
)
