-- ===== src/Nsm/Legacy/Framing.antt =====
-- nsm.go: the form of the responses of the space-delimited protocol.
use argonaut.Nsm.Hex.{decode_required_hex, decode_optional_legacy_hex, Byte}
use argonaut.Nsm.Hex.Codes.{FailsWithCodes, required-codes, legacy-codes}
use argonaut.Nsm.Legacy.{
  err_line, ok_line, reply, attest, legacy_att, legacy_rnd, legacy_method, legacy_args,
  legacy_parts, handle_nsm_legacy_line,
}
use argonaut.Nsm.Request.{AttestationRequest, NsmBackend}
use argonaut.Nsm.Token.{valid_nsm_id, valid_nsm_id_iff, protocol_error-IsToken, IsToken}
use argonaut.Text.Split.{fields}
use argonaut.Prelude.{
  ◌≤◌, ◌≡◌, inl, inr, refl, List, [], ◌∷◌, Option, none, Result, ok, err, Bytes, codes, equal, All,
  length, Bool-cases, arith,
}

-- A response: an id of at most 64 bytes with an error code, or with the hexadecimal print of bytes.
pub data IsResponse (r : Bytes) : Type 0 where
  failed :
      (id code : Bytes)
      → IsToken id
      → length id ≤ 64
      → IsToken code
      → r ≡ err_line id code
      → IsResponse r
  done :
      (id bytes : Bytes)
      → IsToken id
      → length id ≤ 64
      → All Byte bytes
      → r ≡ ok_line id bytes
      → IsResponse r

-- A Go backend returns bytes.
pub record ReturnsBytes {S : Type 0} (backend : NsmBackend S) : Type 0 where
  pub attestation :
      (req : AttestationRequest) (s : S) (bytes : Bytes)
      → (backend.get_attestation req s).0 ≡ ok bytes
      → All Byte bytes
  pub random : (s : S) (bytes : Bytes) → (backend.get_random s).0 ≡ ok bytes → All Byte bytes

missing_key : IsToken (codes "missing_public_key")
missing_key = record { nonempty = cc; bytes = omega arith }

invalid_request : IsToken (codes "invalid_request")
invalid_request = record { nonempty = cc; bytes = omega arith }

unknown_method : IsToken (codes "unknown_method")
unknown_method = record { nonempty = cc; bytes = omega arith }

invalid_id : IsToken (codes "invalid_id")
invalid_id = record { nonempty = cc; bytes = omega arith }

module _ {S : Type 0} (backend : NsmBackend S) (typed : ReturnsBytes backend) (id : Bytes)
    (is_id : IsToken id) (short : length id ≤ 64) where
  fails : {code : Bytes} → IsToken code → IsResponse (err_line id code)
  fails {code} t = failed id code is_id short t refl

  reply-IsResponse :
      (result : Result Bytes Bytes)
      → ((bytes : Bytes) → result ≡ ok bytes → All Byte bytes)
      → IsResponse (reply id result)
  reply-IsResponse (ok bytes) h = done id bytes is_id short (h bytes refl) refl
  reply-IsResponse (err reason) h = fails (protocol_error-IsToken reason)

  attest-IsResponse :
      (key : Result Bytes Bytes) (nonce user_data : Result Bytes (Option Bytes)) (s : S)
      → FailsWithCodes key
      → FailsWithCodes nonce
      → FailsWithCodes user_data
      → IsResponse (attest backend id key nonce user_data s).0
  unfolding attest
  attest-IsResponse (err code) _ _ s k n u = fails k
  attest-IsResponse (ok key) (err code) _ s k n u = fails n
  attest-IsResponse (ok key) (ok _) (err code) s k n u = fails u
  attest-IsResponse (ok key) (ok n) (ok u) s _ _ _ = reply-IsResponse _ (typed.attestation _ s)

  legacy_att-IsResponse : (args : List Bytes) (s : S) → IsResponse (legacy_att backend id args s).0
  unfolding legacy_att
  legacy_att-IsResponse [] s = fails missing_key
  legacy_att-IsResponse (key ∷ []) s =
      attest-IsResponse (decode_required_hex key (codes "missing_public_key")) (ok none) (ok none) s
        (required-codes key _ missing_key) tt tt
  legacy_att-IsResponse (key ∷ nonce ∷ []) s = fails invalid_request
  legacy_att-IsResponse (key ∷ nonce ∷ user_data ∷ []) s =
      attest-IsResponse (decode_required_hex key (codes "missing_public_key"))
        (decode_optional_legacy_hex nonce) (decode_optional_legacy_hex user_data) s
        (required-codes key _ missing_key) (legacy-codes nonce) (legacy-codes user_data)
  legacy_att-IsResponse (key ∷ nonce ∷ user_data ∷ x ∷ more) s = fails invalid_request

  legacy_rnd-IsResponse : (args : List Bytes) (s : S) → IsResponse (legacy_rnd backend id args s).0
  unfolding legacy_rnd
  legacy_rnd-IsResponse [] s = reply-IsResponse _ (typed.random s)
  legacy_rnd-IsResponse (x ∷ more) s = fails invalid_request

  legacy_method-IsResponse :
      (method : Bytes) (args : List Bytes) (s : S)
      → IsResponse (legacy_method backend id method args s).0
  unfolding legacy_method
  legacy_method-IsResponse method args s = elim (Bool-cases (equal method (codes "ATT"))) [
    | inl e ↦ rw e (legacy_att-IsResponse args s)
    | inr e ↦ elim (Bool-cases (equal method (codes "RND"))) [
      | inl r ↦ rw (e, r) (legacy_rnd-IsResponse args s)
      | inr r ↦ rw (e, r) (fails unknown_method)
    ]
  ]

  legacy_args-IsResponse :
      (args : List Bytes) (s : S) → IsResponse (legacy_args backend id args s).0
  unfolding legacy_args
  legacy_args-IsResponse [] s = fails invalid_request
  legacy_args-IsResponse (method ∷ args) s = legacy_method-IsResponse method args s

zero_id : IsToken (codes "0")
zero_id = record { nonempty = cc; bytes = omega arith }

legacy_parts-IsResponse :
    {S : Type 0} (backend : NsmBackend S) (parts : List Bytes) (s : S)
    → ReturnsBytes backend
    → IsResponse (legacy_parts backend parts s).0
unfolding legacy_parts
legacy_parts-IsResponse backend [] s typed =
    legacy_args-IsResponse backend typed (codes "0") zero_id (omega arith) [] s
legacy_parts-IsResponse backend (id ∷ rest) s typed = elim (Bool-cases (valid_nsm_id id)) [
  | inl e ↦
      let (token, short) = (valid_nsm_id_iff id).0 e in
      rw e (legacy_args-IsResponse backend typed id token short rest s)
  | inr e ↦ rw e (failed (codes "0") (codes "invalid_id") zero_id (omega arith) invalid_id refl)
]

-- Whatever the line is, the response is an id of at most 64 token bytes with ` ERR ` and an error
-- code of token bytes, or with ` OK ` and the hexadecimal print of bytes.
pub handle_nsm_legacy_line-IsResponse :
    {S : Type 0} (backend : NsmBackend S) (line : Bytes) (s : S)
    → ReturnsBytes backend
    → IsResponse (handle_nsm_legacy_line backend line s).0
unfolding handle_nsm_legacy_line
handle_nsm_legacy_line-IsResponse backend line s typed =
    legacy_parts-IsResponse backend (fields line) s typed
