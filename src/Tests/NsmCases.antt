-- ===== src/Tests/NsmCases.antt =====
-- nsm.go at concrete inputs; most are those of nsm_test.go.

use argonaut.Nsm.Hex.{
  encode, decode, digit_value, Byte, decode_required_hex, decode_optional_legacy_hex,
  decode_optional_hex,
}
use argonaut.Nsm.Legacy.Framing.{IsResponse, ReturnsBytes, handle_nsm_legacy_line-IsResponse}
use argonaut.Nsm.Legacy.Parse.{answer, att_request, short_att_request, rnd_request, handle-requests}
use argonaut.Nsm.Legacy.{handle_nsm_legacy_line}
use argonaut.Nsm.Request.{NsmBackend}
use argonaut.Nsm.Token.{valid_nsm_id, is_id_byte, is_reason_byte, protocol_error, IsToken}
use argonaut.Text.Split.{fields}
use argonaut.Text.Trim.{space_width}
use argonaut.Prelude.{
  ℕ, zero, suc, ◌+◌, ◌≡◌, refl, [], ◌∷◌, none, some, equal, Result, ok, err, Bytes, codes, All,
  arith,
}

-- A device that counts its calls and fails on the third.
abbrev document : ℕ → Result Bytes Bytes
document n = elim n [ zero ↦ ok (1 ∷ 255 ∷ []) | suc m ↦ err (codes "input too large") ]

abbrev pub mock : NsmBackend ℕ
mock = record {
  get_attestation = λ req n. (document n, n + 1);
  get_random = λ n. (ok (0xab ∷ []), n + 1);
}

ran :
    (handle_nsm_legacy_line mock (codes "7 ATT aabb") 0 ≡ (codes "7 OK 01ff", 1))
    × (handle_nsm_legacy_line mock (codes "7  ATT\tAABB - 01") 1 ≡ (codes "7 ERR backend_error", 2))
    × (handle_nsm_legacy_line mock (codes "7 ATT aab") 0 ≡ (codes "7 ERR invalid_hex", 0))
    × (handle_nsm_legacy_line mock (codes "7 RND extra") 0 ≡ (codes "7 ERR invalid_request", 0))
    × (handle_nsm_legacy_line mock (codes "7 RND") 0 ≡ (codes "7 OK ab", 1))
    × (handle_nsm_legacy_line mock (codes "a/b RND") 0 ≡ (codes "0 ERR invalid_id", 0))
unfolding handle_nsm_legacy_line fields space_width valid_nsm_id is_id_byte protocol_error
    is_reason_byte equal encode decode digit_value decode_required_hex decode_optional_legacy_hex
    decode_optional_hex
ran = (refl, refl, refl, refl, refl, refl)

same_bytes :
    (xs ys : Bytes) → ◌≡◌ {A = Result Bytes Bytes} (ok xs) (ok ys) → All Byte xs → All Byte ys
same_bytes xs ys h b = let e : xs ≡ ys = cc in rw e at b

document-Byte : (n : ℕ) (bytes : Bytes) → document n ≡ ok bytes → All Byte bytes
document-Byte zero bytes h = same_bytes (1 ∷ 255 ∷ []) bytes h (omega arith)
document-Byte (suc n) bytes h = cc

pub mock-ReturnsBytes : ReturnsBytes mock
mock-ReturnsBytes = record {
  attestation = λ req n bytes h. document-Byte n bytes h;
  random = λ n bytes h. same_bytes (0xab ∷ []) bytes h (omega arith);
}

pub seven : IsToken (codes "7")
seven = record { nonempty = cc; bytes = omega arith }

handle_nsm_legacy_line-IsResponse_example :
    IsResponse (handle_nsm_legacy_line mock (codes "7 ATT zz") 0).0
handle_nsm_legacy_line-IsResponse_example =
    handle_nsm_legacy_line-IsResponse mock (codes "7 ATT zz") 0 mock-ReturnsBytes

handle-requests_example :
    (handle_nsm_legacy_line mock (att_request (codes "7") (170 ∷ []) none (some (1 ∷ []))) 0
      ≡ answer (codes "7") (
          mock.get_attestation
            (record { public_key = some (170 ∷ []); nonce = none; user_data = some (1 ∷ []) })
            0))
    × (handle_nsm_legacy_line mock (short_att_request (codes "7") (170 ∷ [])) 0
        ≡ answer (codes "7") (
            mock.get_attestation
              (record { public_key = some (170 ∷ []); nonce = none; user_data = none })
              0))
    × (handle_nsm_legacy_line mock (rnd_request (codes "7")) 0
        ≡ answer (codes "7") (mock.get_random 0))
handle-requests_example =
    handle-requests mock (codes "7") (170 ∷ []) none (some (1 ∷ [])) 0 seven (omega arith)
      (record { nonempty = cc; bytes = omega arith }) tt
      (record { nonempty = cc; bytes = omega arith })
