-- ===== src/Nsm/JsonLine/Parse.antt =====
-- nsm.go: JSON requests, and space-delimited ones, that were written as the protocols say.
use argonaut.Json.Decode.{decode_text, is_field, fold_name}
use argonaut.Json.Parse.RoundTrip.{IsPrintable, MembersPrintable, parse_json-print}
use argonaut.Json.Parse.{max_depth}
use argonaut.Json.Print.{print}
use argonaut.Json.Strings.Plain.{IsPlain, plain_bytes, plain_byte, plain_bytes-Plain}
use argonaut.Json.Value.{Json, Members, text, object, no_members, member}
use argonaut.Nsm.Hex.RoundTrip.{
  IsField, IsOptionalField, decode_required-encode, decode_optional-encode,
}
use argonaut.Nsm.Hex.{encode, encode-IsHexDigit, decode_optional_hex}
use argonaut.Nsm.JsonLine.OneLine.{token-Plain, hex-Plain}
use argonaut.Nsm.JsonLine.{
  store_member, store_request, decode_request, read_request, answer, json_attest, json_att,
  json_rnd, json_response, respond, marshal_nsm_json_response, handle_nsm_json_line,
}
use argonaut.Nsm.Legacy.Parse.{att_request, rnd_request, handle-requests}
use argonaut.Nsm.Legacy.{reply, handle_nsm_legacy_line}
use argonaut.Nsm.Request.{NsmBackend}
use argonaut.Nsm.Token.{IsToken, valid_nsm_id, valid_nsm_id_iff}
use argonaut.Prelude.{
  ℕ, ◌≤◌, ◌≡◌, refl, true, [], Option, none, some, Result, ok, Bytes, codes, equal, length, All,
}

-- `omitempty` on the client's side
abbrev pub opt_field : Bytes → Option Bytes → Members → Members
opt_field key none ms = ms
opt_field key (some s) ms = member key (text (encode s)) ms

abbrev pub att_json : Bytes → Bytes → Option Bytes → Option Bytes → Json
att_json id key nonce user_data = object (
    member (codes "id") (text id) (
      member (codes "method") (text (codes "ATT")) (
        member (codes "publicKey") (text (encode key))
          (opt_field (codes "nonce") nonce (opt_field (codes "userData") user_data no_members)))))

abbrev pub rnd_json : Bytes → Json
rnd_json id =
    object (member (codes "id") (text id) (member (codes "method") (text (codes "RND")) no_members))

abbrev pub opt_hex : Option Bytes → Bytes
opt_hex none = []
opt_hex (some s) = encode s

decode_att :
    (id key : Bytes) (nonce user_data : Option Bytes)
    → decode_request (att_json id key nonce user_data)
      ≡ ok (record {
        id = id;
        method = codes "ATT";
        public_key = encode key;
        nonce = opt_hex nonce;
        user_data = opt_hex user_data;
      })
unfolding decode_request store_request store_member decode_text is_field fold_name equal
decode_att id key none none = refl
decode_att id key (some n) none = refl
decode_att id key none (some u) = refl
decode_att id key (some n) (some u) = refl

decode_rnd :
    (id : Bytes)
    → decode_request (rnd_json id)
      ≡ ok (record { id = id; method = codes "RND"; public_key = []; nonce = []; user_data = [] })
unfolding decode_request store_request store_member decode_text is_field fold_name equal
decode_rnd id = refl

opt_hex-decodes : (o : Option Bytes) → IsOptionalField o → decode_optional_hex (opt_hex o) ≡ ok o
unfolding decode_optional_hex equal
opt_hex-decodes none h = refl
opt_hex-decodes (some s) h = decode_optional-encode s h

opt_field-Printable :
    (d : ℕ) (k : Bytes) (o : Option Bytes) (ms : Members)
    → All IsPlain k
    → IsOptionalField o
    → MembersPrintable d ms
    → MembersPrintable d (opt_field k o ms)
opt_field-Printable d k none ms hk h p = p
opt_field-Printable d k (some s) ms hk h p =
    (hk, hex-Plain (encode s) (encode-IsHexDigit s h.bytes), p)

-- what the response is made of, from what the backend returned
abbrev pub marshalled : {S : Type 0} → Bytes → Result Bytes Bytes × S → Bytes × S
marshalled id (result, s) = (marshal_nsm_json_response (answer id result), s)

module _ {S : Type 0} (backend : NsmBackend S) (id : Bytes) (token : IsToken id)
    (short : length id ≤ 64) where
  id-Plain : All IsPlain id
  id-Plain = token-Plain id token.bytes

  id_valid : valid_nsm_id id ≡ true
  id_valid = (valid_nsm_id_iff id).1 (token, short)

  read_att :
      (key : Bytes) (nonce user_data : Option Bytes)
      → IsField key
      → IsOptionalField nonce
      → IsOptionalField user_data
      → read_request (print (att_json id key nonce user_data))
        ≡ some (record {
          id = id;
          method = codes "ATT";
          public_key = encode key;
          nonce = opt_hex nonce;
          user_data = opt_hex user_data;
        })
  unfolding read_request plain_bytes plain_byte
  read_att key nonce user_data k n u =
      let p : MembersPrintable 9999
          (opt_field (codes "nonce") nonce (opt_field (codes "userData") user_data no_members)) =
        opt_field-Printable 9999 (codes "nonce") nonce _ (plain_bytes-Plain (codes "nonce") refl) n
          (opt_field-Printable 9999 (codes "userData") user_data no_members
            (plain_bytes-Plain (codes "userData") refl) u tt) in
      let printable : IsPrintable max_depth (att_json id key nonce user_data) = (
        plain_bytes-Plain (codes "id") refl,
        id-Plain,
        (
          plain_bytes-Plain (codes "method") refl,
          plain_bytes-Plain (codes "ATT") refl,
          (
            plain_bytes-Plain (codes "publicKey") refl,
            hex-Plain (encode key) (encode-IsHexDigit key k.bytes),
            p,
          ),
        ),
      ) in
      rw (parse_json-print (att_json id key nonce user_data) printable, read_request)
        (rw (decode_att id key nonce user_data))

  read_rnd :
      read_request (print (rnd_json id))
      ≡ some (record { id = id; method = codes "RND"; public_key = []; nonce = []; user_data = [] })
  unfolding read_request plain_bytes plain_byte
  read_rnd =
      let printable : IsPrintable max_depth (rnd_json id) = (
        plain_bytes-Plain (codes "id") refl,
        id-Plain,
        (plain_bytes-Plain (codes "method") refl, plain_bytes-Plain (codes "RND") refl, tt),
      ) in
      rw (parse_json-print (rnd_json id) printable, read_request) (rw (decode_rnd id))

  -- A JSON object of a request makes the call of the backend that it says.
  handle-json-requests :
      (key : Bytes) (nonce user_data : Option Bytes) (s : S)
      → IsField key
      → IsOptionalField nonce
      → IsOptionalField user_data
      → (handle_nsm_json_line backend (print (att_json id key nonce user_data)) s
          ≡ marshalled id (
              backend.get_attestation
                (record { public_key = some key; nonce = nonce; user_data = user_data })
                s))
        × (handle_nsm_json_line backend (print (rnd_json id)) s
            ≡ marshalled id (backend.get_random s))
  unfolding handle_nsm_json_line respond json_response json_att json_rnd json_attest equal
  handle-json-requests key nonce user_data s k n u = (
    rw (read_att key nonce user_data k n u) (
        rw (
          id_valid,
          decode_required-encode key (codes "missing_public_key") k,
          opt_hex-decodes nonce n,
          opt_hex-decodes user_data u,
        )),
    rw read_rnd (rw id_valid),
  )

  -- The two protocols agree: a request of either kind, in either form, with an id of 1 to 64 token
  -- bytes and fields of one or more bytes where it has them, makes exactly one call of the backend,
  -- with the bytes that it was written from, and both leave the state behind that the call leaves
  -- and answer with its result, each in its own form.
  pub protocols-Agree :
      (key : Bytes) (nonce user_data : Option Bytes) (s : S)
      → IsField key
      → IsOptionalField nonce
      → IsOptionalField user_data
      → let call =
          backend.get_attestation
            (record { public_key = some key; nonce = nonce; user_data = user_data })
            s in
        let random = backend.get_random s in
        (handle_nsm_json_line backend (print (att_json id key nonce user_data)) s
          ≡ marshalled id call)
        × (handle_nsm_legacy_line backend (att_request id key nonce user_data) s
            ≡ (reply id call.0, call.1))
        × (handle_nsm_json_line backend (print (rnd_json id)) s ≡ marshalled id random)
        × (handle_nsm_legacy_line backend (rnd_request id) s ≡ (reply id random.0, random.1))
  protocols-Agree key nonce user_data s k n u =
      let (json, json_random) = handle-json-requests key nonce user_data s k n u in
      let (legacy, _, legacy_random) =
        handle-requests backend id key nonce user_data s token short k n u in
      (json, legacy, json_random, legacy_random)
