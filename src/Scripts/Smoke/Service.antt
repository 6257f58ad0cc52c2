-- ===== src/Scripts/Smoke/Service.antt =====
-- scripts/nitro-smoke: `testNSM` of `enclave-runner` against the service of nsm.go.
use argonaut.Json.Decode.{decode_text, is_field, fold_name}
use argonaut.Json.Print.{comma, quoted_text, print, print_members}
use argonaut.Json.Value.{Members, no_members, member, object}
use argonaut.Nsm.Hex.{Byte, encode, decode, decode_required_hex, decode_optional_hex, digit_value}
use argonaut.Nsm.JsonLine.Framing.{IsId, done}
use argonaut.Nsm.JsonLine.OneLine.{IsVisible, marshal-Visible, parse_json-marshal}
use argonaut.Nsm.JsonLine.{
  response_members, success, marshal_nsm_json_response, handle_nsm_json_line, read_request,
  decode_request, store_request, json_response,
}
use argonaut.Nsm.JsonLine.Parse.{marshalled}
use argonaut.Json.Parse.{parse_json, parse_value, skip_space, lead}
use argonaut.Json.Strings.{scan_string, string_next, ends_string, unquote}
use argonaut.Text.Utf8.{rune_width}
use argonaut.Nsm.Request.{AttestationRequest, NsmBackend}
use argonaut.Nsm.Serve.{handle_nsm_line}
use argonaut.Nsm.Token.{IsToken, valid_nsm_id, is_id_byte}
use argonaut.Scripts.Smoke.{
  NsmReply, decode_bool, store_reply, store_replies, decode_reply, unmarshal_reply, nsm_reply,
  random_request, attestation_request, check_random, check_attestation, test_attestation,
  behind_random, test_nsm,
}
use argonaut.Text.Trim.Braces.{IsAscii, trim_space-braces}
use argonaut.Text.Trim.{trim_space, space_width}
use argonaut.Prelude.{
  ℕ, zero, suc, ◌≤◌, ◌≡◌, ◌*◌, refl, ap, ◌∙◌, inr, Bool, true, false, [], ◌∷◌, ◌++◌, append_assoc,
  some, Result, ok, Bytes, codes, length, All, arith, equal, ltb,
}

-- The service as the test sees it: a line is written, and the line of the response is read.
abbrev pub ask : {S : Type 0} → NsmBackend S → Bytes → S → Result Bytes Bytes × S
ask backend request s =
    let (response, s') = handle_nsm_line backend request s in (ok (response ++ b'\n' ∷ []), s')

-- An object's print ends with its brace.
print_members-ends :
    (ms : Members) (first : Bool) → (s : Bytes) × (print_members ms first ≡ s ++ b'}' ∷ [])
unfolding print_members
print_members-ends no_members first = ([], refl)
print_members-ends (member k v ms) first =
    let (t, e) = print_members-ends ms false in
    let closing : Bytes = b'}' ∷ [] in
    (
      comma first ++ (quoted_text k ++ b':' ∷ (print v ++ t)),
      rw (
        e,
        append_assoc (comma first) (quoted_text k ++ b':' ∷ (print v ++ t)) closing,
        append_assoc (quoted_text k) (b':' ∷ (print v ++ t)) closing,
        append_assoc (print v) t closing,
      ),
    )

front-Ascii : (s t : Bytes) → All IsVisible (s ++ t) → All IsAscii s
front-Ascii [] t h = tt
front-Ascii (c ∷ s) t (p, h) = (p.1, front-Ascii s t h)

-- The newline behind a printed object is trimmed, and no more.
trim_space-print :
    (ms : Members)
    → All IsVisible (print (object ms))
    → trim_space (print (object ms) ++ b'\n' ∷ []) ≡ print (object ms)
unfolding print
trim_space-print ms h =
    let (s, e) = print_members-ends ms true in
    let ascii = front-Ascii s (b'}' ∷ []) (rw e at h.1) in
    rw (e, append_assoc s (b'}' ∷ []) (b'\n' ∷ [])) (trim_space-braces s ascii)

-- a response that carries bytes, as the test reads it
read_success :
    (id : Bytes) (b : ℕ) (bytes : Bytes)
    → IsId id
    → All Byte (b ∷ bytes)
    → nsm_reply (ok (marshal_nsm_json_response (success id (b ∷ bytes)) ++ b'\n' ∷ []))
      ≡ ok (record { id = id; ok = true; data_ = encode (b ∷ bytes); error = [] })
unfolding nsm_reply unmarshal_reply decode_reply store_replies store_reply decode_bool decode_text
    is_field fold_name equal encode marshal_nsm_json_response
read_success id b bytes i h =
    let resp = success id (b ∷ bytes) in
    let form = done id (b ∷ bytes) i h refl in
    rw (
      trim_space-print (response_members resp) (marshal-Visible resp form),
      parse_json-marshal resp form,
    )

abbrev pub smoke_attestation : AttestationRequest
smoke_attestation = record {
  public_key = some (elevens 32);
  nonce = some (0xaa ∷ 0xbb ∷ 0xcc ∷ 0xdd ∷ []);
  user_data = some (1 ∷ 2 ∷ 3 ∷ 4 ∷ []);
}
  where
    elevens : ℕ → Bytes
    elevens zero = []
    elevens (suc n) = 0x11 ∷ elevens n

length-encode : (s : Bytes) → length (encode s) ≡ 2 * length s
unfolding encode
length-encode [] = refl
length-encode (c ∷ s) = omega (arith, length-encode s)

test_nsm-ok :
    {S : Type 0} (ask : Bytes → S → Result Bytes Bytes × S) (s s1 s2 : S) (line line' : Bytes)
    (reply reply' : NsmReply)
    → ask random_request s ≡ (ok line, s1)
    → nsm_reply (ok line) ≡ ok reply
    → check_random reply ≡ ok tt
    → ask attestation_request s1 ≡ (ok line', s2)
    → nsm_reply (ok line') ≡ ok reply'
    → check_attestation reply' ≡ ok tt
    → test_nsm ask s ≡ (ok tt, s2)
unfolding test_nsm behind_random test_attestation
test_nsm-ok ask s s1 s2 line line' reply reply' a b c d e f = rw (a, b, c, d, e, f)

-- replies that the test accepts
good_random :
    (b : ℕ) (bytes : Bytes)
    → check_random (record { id = codes "rnd"; ok = true; data_ = encode (b ∷ bytes); error = [] })
      ≡ ok tt
unfolding check_random equal encode
good_random b bytes = refl

good_attestation :
    (doc : Bytes)
    → 32 ≤ length doc
    → check_attestation (record { id = codes "att"; ok = true; data_ = encode doc; error = [] })
      ≡ ok tt
unfolding check_attestation equal
good_attestation doc l =
    let long : ltb (length (encode doc)) 64 ≡ false = ground (arith, length-encode doc, l) in
    rw long

abbrev newline : {S : Type 0} → Bytes × S → Result Bytes Bytes × S
newline (response, s) = (ok (response ++ b'\n' ∷ []), s)

module _ {S : Type 0} (backend : NsmBackend S) where
  handle-random :
      (s : S)
      → handle_nsm_line backend random_request s ≡ marshalled (codes "rnd") (backend.get_random s)
  unfolding handle_nsm_line trim_space space_width handle_nsm_json_line read_request parse_json
      parse_value skip_space lead scan_string string_next ends_string unquote rune_width
      decode_request store_request decode_text is_field fold_name json_response valid_nsm_id
      is_id_byte equal decode decode_required_hex decode_optional_hex digit_value
  handle-random s = refl

  handle-attestation :
      (s : S)
      → handle_nsm_line backend attestation_request s
        ≡ marshalled (codes "att") (backend.get_attestation smoke_attestation s)
  unfolding handle_nsm_line trim_space space_width handle_nsm_json_line read_request parse_json
      parse_value skip_space lead scan_string string_next ends_string unquote rune_width
      decode_request store_request decode_text is_field fold_name json_response valid_nsm_id
      is_id_byte equal decode decode_required_hex decode_optional_hex digit_value
  handle-attestation s = refl

  -- Against a service whose backend returns one or more random bytes, and then a document of 32
  -- bytes or more, the smoke test of the NSM service passes, in two calls of the backend, the second
  -- of which has the fields that the test's request is written from.
  pub test_nsm-handle :
      (s s1 s2 : S) (b d : ℕ) (random doc : Bytes)
      → backend.get_random s ≡ (ok (b ∷ random), s1)
      → All Byte (b ∷ random)
      → backend.get_attestation smoke_attestation s1 ≡ (ok (d ∷ doc), s2)
      → All Byte (d ∷ doc)
      → 32 ≤ length (d ∷ doc)
      → test_nsm (ask backend) s ≡ (ok tt, s2)
  test_nsm-handle s s1 s2 b d random doc r rb a ab l =
      let rnd : IsToken (codes "rnd") = record { nonempty = cc; bytes = omega arith } in
      let att : IsToken (codes "att") = record { nonempty = cc; bytes = omega arith } in
      test_nsm-ok (ask backend) s s1 s2 _ _ _ _
        (ap (newline) (handle-random s ∙ ap (marshalled (codes "rnd")) r))
        (read_success (codes "rnd") b random (inr (rnd, omega arith)) rb) (good_random b random)
        (ap (newline) (handle-attestation s1 ∙ ap (marshalled (codes "att")) a))
        (read_success (codes "att") d doc (inr (att, omega arith)) ab)
        (good_attestation (d ∷ doc) l)
