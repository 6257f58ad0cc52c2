-- ===== src/Config/Validate/Rounds.antt =====
-- config.go: the loop of `ValidateConfig` over the endpoints.

use argonaut.Config.Check.{validate_endpoint, validate_endpoint_iff, IsEndpoint}
use argonaut.Config.Schema.{Endpoint}
use argonaut.Config.Validate.Seen.{
  DistinctFrom, DistinctFrom-cons, DistinctFrom-uncons, seen_at-none,
}
use argonaut.Config.Validate.{seen_at, absent, host_key, local_addr, check_endpoints}
use argonaut.Prelude.{
  ℕ, ◌+◌, ◌≡◌, refl, List, [], ◌∷◌, map, arith, ◌==◌, ==_iff, equal, equal_iff, Bytes, All, none,
  ok,
}

abbrev pub local_addrs : ℕ → List Endpoint → List Bytes
local_addrs i [] = []
local_addrs i (ep ∷ eps) = local_addr ep i ∷ local_addrs (i + 1) eps

module _ (hosts : List (Bytes × ℕ)) (ports : List (ℕ × ℕ)) (addrs : List (Bytes × ℕ)) (i : ℕ) where
  -- The tests of one round of the loop, and the rounds that follow.
  record Round (ep : Endpoint) (eps : List Endpoint) : Type 0 where
    valid : validate_endpoint ep ≡ ok tt
    new_host : seen_at equal (host_key ep) hosts ≡ none
    new_port : seen_at ◌==◌ ep.vsock_port ports ≡ none
    new_addr : seen_at equal (local_addr ep i) addrs ≡ none
    later :
        check_endpoints
          ((host_key ep, i) ∷ hosts)
          ((ep.vsock_port, i) ∷ ports)
          ((local_addr ep i, i) ∷ addrs)
          (i + 1)
          eps
        ≡ ok tt

  -- What the loop over the endpoints checks, from the maps that it started with.
  pub record Checked (eps : List Endpoint) : Type 0 where
    pub each : All IsEndpoint eps
    pub new_hosts : DistinctFrom hosts (map host_key eps)
    pub new_ports : DistinctFrom ports (map (λ ep. ep.vsock_port) eps)
    pub new_addrs : DistinctFrom addrs (local_addrs i eps)

  check_endpoints-Round :
      (ep : Endpoint) (eps : List Endpoint)
      → check_endpoints hosts ports addrs i (ep ∷ eps) ≡ ok tt
      → Round ep eps
  unfolding check_endpoints absent
  check_endpoints-Round ep eps h = ground arith

  Round-check_endpoints :
      (ep : Endpoint) (eps : List Endpoint)
      → Round ep eps
      → check_endpoints hosts ports addrs i (ep ∷ eps) ≡ ok tt
  unfolding check_endpoints absent
  Round-check_endpoints ep eps r = ground arith

pub check_endpoints-Checked :
    (eps : List Endpoint) (hosts : List (Bytes × ℕ)) (ports : List (ℕ × ℕ))
    (addrs : List (Bytes × ℕ)) (i : ℕ)
    → check_endpoints hosts ports addrs i eps ≡ ok tt
    → Checked hosts ports addrs i eps
check_endpoints-Checked [] hosts ports addrs i h = record {
  each = tt;
  new_hosts = (tt, tt);
  new_ports = (tt, tt);
  new_addrs = (tt, tt);
}
check_endpoints-Checked (ep ∷ eps) hosts ports addrs i h =
    let r = check_endpoints-Round hosts ports addrs i ep eps h in
    let c = check_endpoints-Checked eps _ _ _ (i + 1) r.later in
    record {
      each = ((validate_endpoint_iff ep).0 r.valid, c.each);
      new_hosts =
          DistinctFrom-cons _ i _ hosts ((seen_at-none equal equal_iff _ hosts).0 r.new_host)
            c.new_hosts;
      new_ports =
          DistinctFrom-cons _ i _ ports ((seen_at-none ◌==◌ ==_iff _ ports).0 r.new_port)
            c.new_ports;
      new_addrs =
          DistinctFrom-cons _ i _ addrs ((seen_at-none equal equal_iff _ addrs).0 r.new_addr)
            c.new_addrs;
    }

pub Checked-check_endpoints :
    (eps : List Endpoint) (hosts : List (Bytes × ℕ)) (ports : List (ℕ × ℕ))
    (addrs : List (Bytes × ℕ)) (i : ℕ)
    → Checked hosts ports addrs i eps
    → check_endpoints hosts ports addrs i eps ≡ ok tt
Checked-check_endpoints [] hosts ports addrs i c = unfold check_endpoints in refl
Checked-check_endpoints (ep ∷ eps) hosts ports addrs i c =
    let (h, hs) = DistinctFrom-uncons (host_key ep) i (map host_key eps) hosts c.new_hosts in
    let (p, ps) =
      DistinctFrom-uncons ep.vsock_port i (map (λ ep. ep.vsock_port) eps) ports c.new_ports in
    let (a, as_) =
      DistinctFrom-uncons (local_addr ep i) i (local_addrs (i + 1) eps) addrs c.new_addrs in
    Round-check_endpoints hosts ports addrs i ep eps (record {
      valid = (validate_endpoint_iff ep).1 c.each.0;
      new_host = (seen_at-none equal equal_iff _ hosts).1 h;
      new_port = (seen_at-none ◌==◌ ==_iff _ ports).1 p;
      new_addr = (seen_at-none equal equal_iff _ addrs).1 a;
      later =
          Checked-check_endpoints eps _ _ _ (i + 1)
            (record { each = c.each.1; new_hosts = hs; new_ports = ps; new_addrs = as_ });
    })
