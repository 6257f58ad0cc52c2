-- ===== src/Nsm/Device/Cases.antt =====
-- What a decoded message of the NSM device was decoded from.
use argonaut.Nsm.Device.{
  DeviceError, Cbor, NsmResponse, lookup, present, attestation_case, get_random_case, error_case,
  response_case, single_entry, decode_nsm_response, decode_response, decode_attestation,
  decode_attestation_document, decode_random, decode_random_bytes, decode_error, missing_document,
  empty_document, missing_random, empty_random, empty_error_code,
}
use argonaut.Prelude.{
  ◌≡◌, ◌≢◌, refl, ap, inl, inr, true, false, not, List, [], ◌∷◌, Option, none, some, Result, ok,
  >>=-eq-ok, >>-eq-ok, require, require-eq-ok, map_err, map_err-eq-ok, Bytes, codes, equal,
  equal_iff, length, ◌==◌, arith, Bool-cases,
}

present-eq-ok : (e : DeviceError) (o : Option Bytes) (v : Bytes) → present e o ≡ ok v → o ≡ some v
present-eq-ok e none v h = cc
present-eq-ok e (some w) v h = let same : w ≡ v = cc h in ap some same

pub length-ne : (s : Bytes) → not (length s == 0) ≡ true → s ≢ []
length-ne s h e = let h' = rw e at h in cc

pub ne-length : (s : Bytes) → s ≢ [] → not (length s == 0) ≡ true
ne-length [] h = absurd (h refl)
ne-length (c ∷ s) h = ground arith

abbrev pub attested : Bytes → NsmResponse
attested document = record {
  variant = codes "Attestation";
  document = document;
  random = [];
  error = [];
}

abbrev pub randomized : Bytes → NsmResponse
randomized random = record {
  variant = codes "GetRandom";
  document = [];
  random = random;
  error = [];
}

abbrev failed_with : Bytes → NsmResponse
failed_with code = record { variant = codes "Error"; document = []; random = []; error = code }

module _ (cbor : Cbor) where
  -- A map with the field, as a byte string that is not empty.
  pub record IsField (field raw payload : Bytes) : Type 0 where
    pub inner : List (Bytes × Bytes)
    pub value : Bytes
    pub inner_map : cbor.unmarshal_map raw ≡ ok inner
    pub has_field : lookup field inner ≡ some value
    pub decodes : cbor.unmarshal_bytes value ≡ ok payload
    pub nonempty : payload ≢ []

  attestation_case-eq-ok :
      (raw : Bytes) (resp : NsmResponse)
      → attestation_case cbor raw ≡ ok resp
      → (document : Bytes) × IsField (codes "document") raw document × (attested document ≡ resp)
  unfolding attestation_case
  attestation_case-eq-ok raw resp h =
      let (inner, e, h1) = >>=-eq-ok (map_err decode_attestation (cbor.unmarshal_map raw)) _ h in
      let (value, f, h2) =
        >>=-eq-ok (present missing_document (lookup (codes "document") inner)) _ h1 in
      let (document, g, h3) =
        >>=-eq-ok (map_err decode_attestation_document (cbor.unmarshal_bytes value)) _ h2 in
      let (t, same) = >>-eq-ok (require (not (length document == 0)) empty_document) _ h3 in
      (
        document,
        record {
          inner = inner;
          value = value;
          inner_map = map_err-eq-ok decode_attestation _ e;
          has_field = present-eq-ok missing_document _ value f;
          decodes = map_err-eq-ok decode_attestation_document _ g;
          nonempty = length-ne document (require-eq-ok _ empty_document t);
        },
        cc same,
      )

  get_random_case-eq-ok :
      (raw : Bytes) (resp : NsmResponse)
      → get_random_case cbor raw ≡ ok resp
      → (random : Bytes) × IsField (codes "random") raw random × (randomized random ≡ resp)
  unfolding get_random_case
  get_random_case-eq-ok raw resp h =
      let (inner, e, h1) = >>=-eq-ok (map_err decode_random (cbor.unmarshal_map raw)) _ h in
      let (value, f, h2) =
        >>=-eq-ok (present missing_random (lookup (codes "random") inner)) _ h1 in
      let (random, g, h3) =
        >>=-eq-ok (map_err decode_random_bytes (cbor.unmarshal_bytes value)) _ h2 in
      let (t, same) = >>-eq-ok (require (not (length random == 0)) empty_random) _ h3 in
      (
        random,
        record {
          inner = inner;
          value = value;
          inner_map = map_err-eq-ok decode_random _ e;
          has_field = present-eq-ok missing_random _ value f;
          decodes = map_err-eq-ok decode_random_bytes _ g;
          nonempty = length-ne random (require-eq-ok _ empty_random t);
        },
        cc same,
      )

  error_case-eq-ok :
      (raw : Bytes) (resp : NsmResponse)
      → error_case cbor raw ≡ ok resp
      → equal resp.error [] ≡ false
  unfolding error_case
  error_case-eq-ok raw resp h =
      let (code, e, h1) = >>=-eq-ok (map_err decode_error (cbor.unmarshal_text raw)) _ h in
      let (t, same) = >>-eq-ok (require (not (equal code [])) empty_error_code) _ h1 in
      let c : code ≡ resp.error = ap (λ r. r.error) (errored code resp same) in
      let n = require-eq-ok _ empty_error_code t in rw (← c) (ground arith)
    where
      errored :
          (code : Bytes) (resp : NsmResponse)
          → ◌≡◌ {A = Result DeviceError NsmResponse} (ok (failed_with code)) (ok resp)
          → failed_with code ≡ resp
      errored code resp h = cc

  -- What a response was decoded from.
  pub data Decoded (key raw : Bytes) (resp : NsmResponse) : Type 0 where
    attestation :
        (document : Bytes)
        → key ≡ codes "Attestation"
        → IsField (codes "document") raw document
        → attested document ≡ resp
        → Decoded key raw resp
    random :
        (bytes : Bytes)
        → key ≡ codes "GetRandom"
        → IsField (codes "random") raw bytes
        → randomized bytes ≡ resp
        → Decoded key raw resp
    failure : equal resp.error [] ≡ false → Decoded key raw resp

  response_case-Decoded :
      (key raw : Bytes) (resp : NsmResponse)
      → response_case cbor key raw ≡ ok resp
      → Decoded key raw resp
  unfolding response_case
  response_case-Decoded key raw resp h = elim (Bool-cases (equal key (codes "Attestation"))) [
    | inl e ↦
        let (document, f, same) = attestation_case-eq-ok raw resp (rw (e, response_case) at h) in
        attestation document ((equal_iff key _).0 e) f same
    | inr e ↦ elim (Bool-cases (equal key (codes "GetRandom"))) [
      | inl g ↦
          let (bytes, f, same) = get_random_case-eq-ok raw resp (rw (e, g, response_case) at h) in
          random bytes ((equal_iff key _).0 g) f same
      | inr g ↦ elim (Bool-cases (equal key (codes "Error"))) [
        | inl k ↦ failure (error_case-eq-ok raw resp (rw (e, g, k, response_case) at h))
        | inr k ↦ let h' = rw (e, g, k, response_case) at h in cc
      ]
    ]
  ]

  single_entry-Decoded :
      (m : List (Bytes × Bytes)) (resp : NsmResponse)
      → single_entry cbor m ≡ ok resp
      → (key raw : Bytes) × (m ≡ (key, raw) ∷ []) × Decoded key raw resp
  unfolding single_entry
  single_entry-Decoded [] resp h = cc
  single_entry-Decoded ((key, raw) ∷ []) resp h =
      (key, raw, refl, response_case-Decoded key raw resp h)
  single_entry-Decoded (_ ∷ _ ∷ _) resp h = cc

  pub decode_nsm_response-Decoded :
      (msg : Bytes) (resp : NsmResponse)
      → decode_nsm_response cbor msg ≡ ok resp
      → (key raw : Bytes) × (cbor.unmarshal_map msg ≡ ok ((key, raw) ∷ [])) × Decoded key raw resp
  unfolding decode_nsm_response
  decode_nsm_response-Decoded msg resp h =
      let (m, e, h1) = >>=-eq-ok (map_err decode_response (cbor.unmarshal_map msg)) _ h in
      let (key, raw, same, d) = single_entry-Decoded m resp h1 in
      (key, raw, rw same at (map_err-eq-ok decode_response _ e), d)
