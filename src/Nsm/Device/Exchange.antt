-- ===== src/Nsm/Device/Exchange.antt =====
-- nsm.go: what the NSM device is handed, and when.
use argonaut.Nsm.Device.Answers.{IsAnswer, decode_attestation_response-IsAnswer}
use argonaut.Nsm.Device.{
  DeviceError, Cbor, IoctlResult, encode_attestation_request, decode_attestation_response,
  invalid_request, encode_request, nsm_ioctl, ioctl_response, exchange, get_attestation,
  nsm_request_max_size, nsm_response_max_size, input_too_large, ioctl_failed, response_too_large,
}
use argonaut.Nsm.Request.{
  AttestationRequest, validate_attestation_request, validate_attestation_request_iff,
  IsAttestationRequest,
}
use argonaut.Prelude.{
  ◌≤◌, ◌≡◌, ◌≢◌, refl, sym, inl, inr, not, Result, ok, err, ◌>>◌, >>=-eq-ok, >>-eq-ok, require,
  require-eq-ok, map_err, map_err-eq-ok, Bytes, codes, length, take, ltb, ◌==◌, arith, Bool-cases,
  ==_iff,
}

ioctl_response-eq-ok :
    (r : IoctlResult) (resp : Bytes)
    → ioctl_response r ≡ ok resp
    → (r.errno ≡ 0) × (r.response_len ≤ 12288) × (resp ≡ take r.response_len r.response)
unfolding ioctl_response
ioctl_response-eq-ok r resp h =
    let (a, h1) = >>-eq-ok (require (not (r.errno == 90)) input_too_large) _ h in
    let (b, h2) = >>-eq-ok (require (r.errno == 0) (ioctl_failed r.errno)) _ h1 in
    let (c, h3) =
      >>-eq-ok
        (require (not (ltb nsm_response_max_size r.response_len))
          (response_too_large r.response_len))
        _ h2 in
    let e = require-eq-ok _ _ b in
    let f = require-eq-ok _ _ c in
    let g : take r.response_len r.response ≡ resp = cc h3 in
    ((==_iff r.errno 0).0 e, ground arith, sym g)

module _ {S : Type 0} (ioctl : Bytes → S → IoctlResult × S) where
  -- The device was called with a request of 1 to 4096 bytes, and told of at most 12288 bytes.
  pub record IsCall (request : Bytes) (s : S) (resp : Bytes) : Type 0 where
    pub request_size : (1 ≤ length request) × (length request ≤ 4096)
    pub no_errno : (ioctl request s).0.errno ≡ 0
    pub response_size : (ioctl request s).0.response_len ≤ 12288
    pub response : resp ≡ take (ioctl request s).0.response_len (ioctl request s).0.response

  nsm_ioctl-IsCall :
      (request : Bytes) (s : S) (resp : Bytes)
      → (nsm_ioctl ioctl request s).0 ≡ ok resp
      → IsCall request s resp × ((nsm_ioctl ioctl request s).1 ≡ (ioctl request s).1)
  unfolding nsm_ioctl
  nsm_ioctl-IsCall request s resp h = elim (Bool-cases (length request == 0)) [
    | inl e ↦ let h' = rw (e, nsm_ioctl) at h in cc
    | inr e ↦ elim (Bool-cases (ltb nsm_request_max_size (length request))) [
      | inl f ↦ let h' = rw (e, f, nsm_ioctl) at h in cc
      | inr f ↦
          let (no_errno, size, same) = ioctl_response-eq-ok _ resp (rw (e, f, nsm_ioctl) at h) in
          (
            record {
              request_size = ground (arith, e, f);
              no_errno = no_errno;
              response_size = size;
              response = same;
            },
            rw (e, f, nsm_ioctl),
          )
    ]
  ]

  module _ (cbor : Cbor) where
    exchange-IsCall :
        (decode : Bytes → Result DeviceError Bytes) (encoded : Result DeviceError Bytes) (s : S)
        (payload : Bytes)
        → (exchange cbor ioctl decode encoded s).0 ≡ ok payload
        → (request resp : Bytes) × (encoded ≡ ok request)
          × IsCall request s resp
          × ((exchange cbor ioctl decode encoded s).1 ≡ (ioctl request s).1)
          × (decode resp ≡ ok payload)
    unfolding exchange
    exchange-IsCall decode (err e) s payload h = cc
    exchange-IsCall decode (ok request) s payload h =
        let (resp, e, d) = >>=-eq-ok (nsm_ioctl ioctl request s).0 decode h in
        let (call, next) = nsm_ioctl-IsCall request s resp e in (request, resp, refl, call, next, d)

    -- The document of an accepted request.
    get_attestation-ok :
        (req : AttestationRequest) (s : S) (document : Bytes)
        → (get_attestation cbor ioctl req s).0 ≡ ok document
        → IsAttestationRequest req
          × (request resp : Bytes) × (encode_attestation_request cbor req ≡ ok request)
          × IsCall request s resp
          × ((get_attestation cbor ioctl req s).1 ≡ (ioctl request s).1)
          × IsAnswer cbor (codes "Attestation") (codes "document") resp document
    unfolding get_attestation
    get_attestation-ok req s document h =
        let (request, resp, e, call, next, d) =
          exchange-IsCall (decode_attestation_response cbor) _ s document h in
        let (valid, encoded) =
          >>-eq-ok (map_err invalid_request (validate_attestation_request req)) _ e in
        (
          (validate_attestation_request_iff req).0 (map_err-eq-ok invalid_request _ valid),
          request,
          resp,
          map_err-eq-ok encode_request _ encoded,
          call,
          next,
          decode_attestation_response-IsAnswer cbor resp document d,
        )

    refused :
        (req : AttestationRequest) (s : S) (valid : Result Bytes (Unit {0}))
        → valid ≢ ok tt
        → (exchange cbor ioctl
            (decode_attestation_response cbor)
            (map_err invalid_request valid
              >> map_err encode_request (encode_attestation_request cbor req))
            s).1
          ≡ s
    unfolding exchange
    refused req s (ok tt) h = absurd (h refl)
    refused req s (err e) h = refl

    -- Where `GetAttestation` returns a document, the request was valid, its encoding of 1 to 4096
    -- bytes was handed to the device in one call, which set no errno and a length of at most 12288,
    -- and the document is the one of that many bytes of its response; an invalid request is refused
    -- before the device is called.
    pub get_attestation_lem :
        (req : AttestationRequest) (s : S)
        → ((document : Bytes)
            → (get_attestation cbor ioctl req s).0 ≡ ok document
            → IsAttestationRequest req
              × (request resp : Bytes) × (encode_attestation_request cbor req ≡ ok request)
              × IsCall request s resp
              × ((get_attestation cbor ioctl req s).1 ≡ (ioctl request s).1)
              × IsAnswer cbor (codes "Attestation") (codes "document") resp document)
          × ((IsAttestationRequest req → ⊥) → (get_attestation cbor ioctl req s).1 ≡ s)
    unfolding get_attestation
    get_attestation_lem req s = (
      get_attestation-ok req s,
      λ invalid.
          refused req s (validate_attestation_request req)
            (λ v. invalid ((validate_attestation_request_iff req).0 v)),
    )
