-- ===== src/Nsm/JsonLine/Framing.antt =====
-- nsm.go: the form of the responses of the JSON Lines protocol.

use argonaut.Nsm.Hex.Codes.{FailsWithCodes, required-codes, optional-codes}
use argonaut.Nsm.Hex.{Byte, decode_required_hex, decode_optional_hex}
use argonaut.Nsm.JsonLine.{
  NsmJsonRequest, NsmJsonResponse, failure, success, answer, json_attest, json_att, json_rnd,
  json_response, respond,
}
use argonaut.Nsm.Legacy.Framing.{ReturnsBytes}
use argonaut.Nsm.Request.{NsmBackend}
use argonaut.Nsm.Token.{IsToken, valid_nsm_id, valid_nsm_id_iff, protocol_error-IsToken}
use argonaut.Prelude.{
  ◌≤◌, ◌≡◌, ◌⊎◌, inl, inr, refl, [], Option, none, some, Result, ok, err, Bytes, codes, equal,
  length, All, arith, ◌&&◌, Bool-cases,
}

-- No id, or one of 1 to 64 token bytes.
abbrev pub IsId : Bytes → Type 0
IsId id = (id ≡ []) ⊎ IsToken id × (length id ≤ 64)

-- A response: an error code, or the hexadecimal print of bytes.
pub data IsJsonResponse (resp : NsmJsonResponse) : Type 0 where
  failed : (id code : Bytes) → IsId id → IsToken code → resp ≡ failure id code → IsJsonResponse resp
  done :
      (id bytes : Bytes) → IsId id → All Byte bytes → resp ≡ success id bytes → IsJsonResponse resp

module _ {S : Type 0} (backend : NsmBackend S) (typed : ReturnsBytes backend) where
  fails : (id : Bytes) {code : Bytes} → IsId id → IsToken code → IsJsonResponse (failure id code)
  fails id {code} i t = failed id code i t refl

  answer-IsJsonResponse :
      (id : Bytes) (result : Result Bytes Bytes)
      → IsId id
      → ((bytes : Bytes) → result ≡ ok bytes → All Byte bytes)
      → IsJsonResponse (answer id result)
  answer-IsJsonResponse id (ok bytes) i h = done id bytes i (h bytes refl) refl
  answer-IsJsonResponse id (err reason) i h = fails id i (protocol_error-IsToken reason)

  json_attest-IsJsonResponse :
      (id : Bytes) (key : Result Bytes Bytes) (nonce user_data : Result Bytes (Option Bytes))
      (s : S)
      → IsId id
      → FailsWithCodes key
      → FailsWithCodes nonce
      → FailsWithCodes user_data
      → IsJsonResponse (json_attest backend id key nonce user_data s).0
  unfolding json_attest
  json_attest-IsJsonResponse id (err code) _ _ s i k n u = fails id i k
  json_attest-IsJsonResponse id (ok key) (err code) _ s i k n u = fails id i n
  json_attest-IsJsonResponse id (ok key) (ok _) (err code) s i k n u = fails id i u
  json_attest-IsJsonResponse id (ok key) (ok n) (ok u) s i _ _ _ =
      answer-IsJsonResponse id _ i (typed.attestation _ s)

  json_response-IsJsonResponse :
      (req : NsmJsonRequest) (s : S) → IsJsonResponse (json_response backend req s).0
  unfolding json_response json_att json_rnd
  json_response-IsJsonResponse req s = elim (Bool-cases (valid_nsm_id req.id)) [
    | inr e ↦ rw e (fails [] (inl refl) (record { nonempty = cc; bytes = omega arith }))
    | inl e ↦
        let i : IsId req.id = inr ((valid_nsm_id_iff req.id).0 e) in
        elim (Bool-cases (equal req.method (codes "ATT"))) [
          | inl a ↦
              rw (e, a)
                (json_attest-IsJsonResponse req.id
                  (decode_required_hex req.public_key (codes "missing_public_key"))
                  (decode_optional_hex req.nonce) (decode_optional_hex req.user_data) s i
                  (required-codes req.public_key _ (record { nonempty = cc; bytes = omega arith }))
                  (optional-codes req.nonce) (optional-codes req.user_data))
          | inr a ↦ elim (Bool-cases (equal req.method (codes "RND"))) [
            | inr r ↦ rw (e, a, r) (fails req.id i (record { nonempty = cc; bytes = omega arith }))
            | inl r ↦
                elim (Bool-cases
                  (equal req.public_key [] && equal req.nonce [] && equal req.user_data [])) [
                    | inl q ↦
                        rw (e, a, r) (rw q (answer-IsJsonResponse req.id _ i (typed.random s)))
                    | inr q ↦
                        rw (e, a, r)
                          (rw q (fails req.id i (record { nonempty = cc; bytes = omega arith })))
                  ]
          ]
        ]
  ]

  pub respond-IsJsonResponse :
      (o : Option NsmJsonRequest) (s : S) → IsJsonResponse (respond backend o s).0
  unfolding respond
  respond-IsJsonResponse none s =
      fails [] (inl refl) (record { nonempty = cc; bytes = omega arith })
  respond-IsJsonResponse (some req) s = json_response-IsJsonResponse req s
