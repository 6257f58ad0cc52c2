-- ===== src/Config/Address.antt =====
-- config.go: the addresses that `endpointLocalIP` returns.
use argonaut.Config.Addr.{dotted}
use argonaut.Config.Check.{endpoint_local_ip, IsLoopback, IsEndpoint}
use argonaut.Config.Schema.{Endpoint, max_endpoints}
use argonaut.Text.Decimal.{itoa, IsDigit, itoa-IsDigit}
use argonaut.Text.Split.{join, join-All}
use argonaut.Prelude.{
  ℕ, ◌+◌, ◌<◌, ◌≡◌, ◌≢◌, ◌⊎◌, inl, inr, refl, List, [], ◌∷◌, map, arith, equal, equal_iff,
  Bool-cases, Bytes, All, All-map,
}

-- A digit or a dot.
abbrev pub IsIpByte : ℕ → Type 0
IsIpByte c = IsDigit c ⊎ (c ≡ b'.')

-- An endpoint with no localIP gets 127.0.0.(64 + index).
pub default_ip :
    (ep : Endpoint) (i : ℕ)
    → ep.local_ip ≡ []
    → endpoint_local_ip ep i ≡ dotted (127 ∷ 0 ∷ 0 ∷ (64 + i) ∷ [])
unfolding endpoint_local_ip join itoa equal
default_ip ep i h = rw h

given_ip : (ep : Endpoint) (i : ℕ) → ep.local_ip ≢ [] → endpoint_local_ip ep i ≡ ep.local_ip
unfolding endpoint_local_ip
given_ip ep i h = elim (Bool-cases (equal ep.local_ip [])) [
  | inl e ↦ absurd (h ((equal_iff ep.local_ip []).0 e))
  | inr e ↦ rw e
]

nil_or_not : (s : Bytes) → (s ≡ []) ⊎ (s ≢ [])
nil_or_not [] = inl refl
nil_or_not (c ∷ s) = inr (cc)

-- Every valid endpoint binds an IPv4 loopback address: its localIP, or the generated one, which
-- is in range for each of the 191 indices.
pub endpoint_local_ip-IsLoopback :
    (ep : Endpoint) (i : ℕ)
    → IsEndpoint ep
    → i < max_endpoints
    → IsLoopback (endpoint_local_ip ep i)
endpoint_local_ip-IsLoopback ep i v h = elim (nil_or_not ep.local_ip) [
  | inl e ↦ rw (default_ip ep i e) (record {
    rest = 0 ∷ 0 ∷ (64 + i) ∷ [];
    spells = record { spelled = refl; four = refl; octets = omega arith };
  })
  | inr e ↦ rw (given_ip ep i e) (v.local_ip e)
]

map-itoa : (os : List ℕ) → All (All IsIpByte) (map itoa os)
map-itoa [] = tt
map-itoa (o ∷ os) = (All-map IsDigit IsIpByte (itoa o) (λ c d. inl d) (itoa-IsDigit o), map-itoa os)

dotted-IsIpByte : (os : List ℕ) → All IsIpByte (dotted os)
dotted-IsIpByte os = join-All IsIpByte b'.' (map itoa os) (inr refl) (map-itoa os)

-- The text of a bind address has digits and dots only, for every index.
pub endpoint_local_ip-IsIpByte :
    (ep : Endpoint) (i : ℕ) → IsEndpoint ep → All IsIpByte (endpoint_local_ip ep i)
endpoint_local_ip-IsIpByte ep i v = elim (nil_or_not ep.local_ip) [
  | inl e ↦ rw (default_ip ep i e) (dotted-IsIpByte (127 ∷ 0 ∷ 0 ∷ (64 + i) ∷ []))
  | inr e ↦
      let l = v.local_ip e in
      rw (given_ip ep i e) (rw l.spells.spelled (dotted-IsIpByte (127 ∷ l.rest)))
]
