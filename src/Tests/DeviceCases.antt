-- ===== src/Tests/DeviceCases.antt =====
-- The device of nsm.go at a concrete answer.
use argonaut.Nsm.Device.Answers.{IsAnswer, decode_responses_iff}
use argonaut.Nsm.Device.Exchange.{IsCall, get_attestation_lem}
use argonaut.Nsm.Device.{
  Cbor, Item, text_item, struct_item, IoctlResult, encode_attestation_request, nsm_ioctl,
  decode_nsm_response, decode_attestation_response, decode_get_random_response, get_attestation,
}
use argonaut.Nsm.Request.{AttestationRequest, validate_attestation_request, IsAttestationRequest}
use argonaut.Prelude.{
  ℕ, suc, ◌≡◌, ◌↔◌, refl, true, false, List, [], ◌∷◌, ◌++◌, none, some, Result, ok, err, Bytes,
  codes, equal,
}

-- A toy encoding: one byte for each message, `A` for an attestation, `d` for its map.
abbrev maps : Bytes → Result Bytes (List (Bytes × Bytes))
maps (c ∷ []) = elim (equal (c ∷ []) (codes "A")) [
  | true ↦ ok ((codes "Attestation", codes "d") ∷ [])
  | false ↦ ok ((codes "document", codes "x") ∷ (codes "nonce", codes "y") ∷ [])
]
maps _ = err (codes "unexpected EOF")

abbrev marshals : Item → Result Bytes Bytes
marshals (text_item s) = ok s
marshals (struct_item s fields) = ok s

abbrev toy : Cbor
toy = record {
  marshal = marshals;
  unmarshal_map = maps;
  unmarshal_bytes = λ s. ok (s ++ s);
  unmarshal_text = λ s. ok s;
}

-- A device that counts its calls.
abbrev device : Bytes → ℕ → IoctlResult × ℕ
device request n = (record { errno = 0; response = codes "A.."; response_len = 1 }, suc n)

abbrev request : AttestationRequest
request = record { public_key = some (codes "key"); nonce = none; user_data = none }

abbrev empty : AttestationRequest
empty = record { public_key = none; nonce = none; user_data = none }

ran :
    (get_attestation toy device request 7 ≡ (ok (codes "xx"), 8))
    × ((get_attestation toy device empty 7).1 ≡ 7)
unfolding get_attestation nsm_ioctl encode_attestation_request validate_attestation_request
    decode_attestation_response decode_nsm_response equal
ran = (refl, refl)

decode_responses_iff_example :
    ((decode_attestation_response toy (codes "A") ≡ ok (codes "xx"))
      ↔ IsAnswer toy (codes "Attestation") (codes "document") (codes "A") (codes "xx"))
    × ((decode_get_random_response toy (codes "A") ≡ ok (codes "xx"))
        ↔ IsAnswer toy (codes "GetRandom") (codes "random") (codes "A") (codes "xx"))
decode_responses_iff_example = decode_responses_iff toy (codes "A") (codes "xx")

get_attestation_lem_example :
    ((document : Bytes)
      → (get_attestation toy device request 7).0 ≡ ok document
      → IsAttestationRequest request
        × (message resp : Bytes) × (encode_attestation_request toy request ≡ ok message)
        × IsCall device message 7 resp
        × ((get_attestation toy device request 7).1 ≡ (device message 7).1)
        × IsAnswer toy (codes "Attestation") (codes "document") resp document)
    × ((IsAttestationRequest request → ⊥) → (get_attestation toy device request 7).1 ≡ 7)
get_attestation_lem_example = get_attestation_lem device toy request 7
