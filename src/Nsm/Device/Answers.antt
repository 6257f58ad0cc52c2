-- ===== src/Nsm/Device/Answers.antt =====
-- nsm.go: the messages of the NSM device that are accepted as an answer.
use argonaut.Nsm.Device.Cases.{
  ne-length, IsField, Decoded, attestation, random, failure, decode_nsm_response-Decoded,
}
use argonaut.Nsm.Device.{
  DeviceError, Cbor, NsmResponse, lookup, attestation_case, get_random_case, response_case,
  single_entry, decode_nsm_response, decode_attestation_response, decode_get_random_response,
  nsm_error, unexpected_variant,
}
use argonaut.Prelude.{
  ◌≡◌, ◌≢◌, ◌∙◌, ◌↔◌, refl, ap, true, List, [], ◌∷◌, some, Result, ok, >>=-eq-ok, >>-eq-ok, require,
  require-eq-ok, Bytes, codes, equal,
}

-- The message is a map with one entry, whose value is a map where the field is a byte string, and
-- that one is the payload, which is not empty.
pub record IsAnswer (cbor : Cbor) (variant field msg payload : Bytes) : Type 0 where
  pub raw : Bytes
  pub inner : List (Bytes × Bytes)
  pub value : Bytes
  pub outer_map : cbor.unmarshal_map msg ≡ ok ((variant, raw) ∷ [])
  pub inner_map : cbor.unmarshal_map raw ≡ ok inner
  pub has_field : lookup field inner ≡ some value
  pub decodes : cbor.unmarshal_bytes value ≡ ok payload
  pub nonempty : payload ≢ []

module _ (cbor : Cbor) where
  is_answer :
      (variant field msg raw payload : Bytes)
      → cbor.unmarshal_map msg ≡ ok ((variant, raw) ∷ [])
      → IsField cbor field raw payload
      → IsAnswer cbor variant field msg payload
  is_answer variant field msg raw payload e f = record {
    raw = raw;
    inner = f.inner;
    value = f.value;
    outer_map = e;
    inner_map = f.inner_map;
    has_field = f.has_field;
    decodes = f.decodes;
    nonempty = f.nonempty;
  }

  pub decode_attestation_response-IsAnswer :
      (msg document : Bytes)
      → decode_attestation_response cbor msg ≡ ok document
      → IsAnswer cbor (codes "Attestation") (codes "document") msg document
  unfolding decode_attestation_response equal
  decode_attestation_response-IsAnswer msg document h =
      let (resp, e, h1) = >>=-eq-ok (decode_nsm_response cbor msg) _ h in
      let (none_reported, h2) =
        >>-eq-ok (require (equal resp.error []) (nsm_error resp.error)) _ h1 in
      let (right, last) =
        >>-eq-ok
          (require (equal resp.variant (codes "Attestation")) (unexpected_variant resp.variant)) _
          h2 in
      let (key, raw, outer, d) = decode_nsm_response-Decoded cbor msg resp e in
      by_case resp key raw outer (require-eq-ok _ _ none_reported) (require-eq-ok _ _ right) last d
    where
      by_case :
          (resp : NsmResponse) (key raw : Bytes)
          → cbor.unmarshal_map msg ≡ ok ((key, raw) ∷ [])
          → equal resp.error [] ≡ true
          → equal resp.variant (codes "Attestation") ≡ true
          → ◌≡◌ {A = Result DeviceError Bytes} (ok resp.document) (ok document)
          → Decoded cbor key raw resp
          → IsAnswer cbor (codes "Attestation") (codes "document") msg document
      by_case resp key raw outer clear right last (attestation doc k f same) =
          let d : resp.document ≡ document = cc last in
          let e : doc ≡ document = ap (λ r. r.document) same ∙ d in
          is_answer (codes "Attestation") (codes "document") msg raw document (rw k at outer)
            (rw e at f)
      by_case resp key raw outer clear right last (random bytes k f same) =
          let wrong = rw (← same) at right in cc
      by_case resp key raw outer clear right last (failure e) = cc

  decode_get_random_response-IsAnswer :
      (msg payload : Bytes)
      → decode_get_random_response cbor msg ≡ ok payload
      → IsAnswer cbor (codes "GetRandom") (codes "random") msg payload
  unfolding decode_get_random_response equal
  decode_get_random_response-IsAnswer msg payload h =
      let (resp, e, h1) = >>=-eq-ok (decode_nsm_response cbor msg) _ h in
      let (none_reported, h2) =
        >>-eq-ok (require (equal resp.error []) (nsm_error resp.error)) _ h1 in
      let (right, last) =
        >>-eq-ok
          (require (equal resp.variant (codes "GetRandom")) (unexpected_variant resp.variant)) _
          h2 in
      let (key, raw, outer, d) = decode_nsm_response-Decoded cbor msg resp e in
      by_case resp key raw outer (require-eq-ok _ _ none_reported) (require-eq-ok _ _ right) last d
    where
      by_case :
          (resp : NsmResponse) (key raw : Bytes)
          → cbor.unmarshal_map msg ≡ ok ((key, raw) ∷ [])
          → equal resp.error [] ≡ true
          → equal resp.variant (codes "GetRandom") ≡ true
          → ◌≡◌ {A = Result DeviceError Bytes} (ok resp.random) (ok payload)
          → Decoded cbor key raw resp
          → IsAnswer cbor (codes "GetRandom") (codes "random") msg payload
      by_case resp key raw outer clear right last (random bytes k f same) =
          let d : resp.random ≡ payload = cc last in
          let e : bytes ≡ payload = ap (λ r. r.random) same ∙ d in
          is_answer (codes "GetRandom") (codes "random") msg raw payload (rw k at outer) (rw e at f)
      by_case resp key raw outer clear right last (attestation doc k f same) =
          let wrong = rw (← same) at right in cc
      by_case resp key raw outer clear right last (failure e) = cc

  IsAnswer-decode_attestation_response :
      (msg document : Bytes)
      → IsAnswer cbor (codes "Attestation") (codes "document") msg document
      → decode_attestation_response cbor msg ≡ ok document
  unfolding decode_attestation_response decode_nsm_response single_entry response_case
      attestation_case equal
  IsAnswer-decode_attestation_response msg document a =
      let size = ne-length document a.nonempty in
      rw a.outer_map (rw a.inner_map (rw a.has_field (rw a.decodes (rw size refl))))

  IsAnswer-decode_get_random_response :
      (msg bytes : Bytes)
      → IsAnswer cbor (codes "GetRandom") (codes "random") msg bytes
      → decode_get_random_response cbor msg ≡ ok bytes
  unfolding decode_get_random_response decode_nsm_response single_entry response_case
      get_random_case equal
  IsAnswer-decode_get_random_response msg bytes a =
      let size = ne-length bytes a.nonempty in
      rw a.outer_map (rw a.inner_map (rw a.has_field (rw a.decodes (rw size refl))))

  -- An attestation document or random bytes are returned exactly if the device's message is a map
  -- with the one entry of that name, in which the field of that kind is a byte string that is not
  -- empty: an error, another variant or a second entry is refused.
  pub decode_responses_iff :
      (msg payload : Bytes)
      → ((decode_attestation_response cbor msg ≡ ok payload)
          ↔ IsAnswer cbor (codes "Attestation") (codes "document") msg payload)
        × ((decode_get_random_response cbor msg ≡ ok payload)
            ↔ IsAnswer cbor (codes "GetRandom") (codes "random") msg payload)
  decode_responses_iff msg payload = (
    (
      decode_attestation_response-IsAnswer msg payload,
      IsAnswer-decode_attestation_response msg payload,
    ),
    (
      decode_get_random_response-IsAnswer msg payload,
      IsAnswer-decode_get_random_response msg payload,
    ),
  )
