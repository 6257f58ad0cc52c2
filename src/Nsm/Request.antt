-- ===== src/Nsm/Request.antt =====
-- nsm.go: the request record, the backend interface and `validateAttestationRequest`.
use argonaut.Prelude.{
  ℕ, ◌≤◌, ◌≡◌, ◌↔◌, not, Option, none, some, Result, ok, ◌>>◌, require, Bytes, codes, length, ltb,
  ◌==◌, arith,
}

abbrev pub nsm_field_max_size : ℕ
nsm_field_max_size = 2048

-- A nil slice is `none`.
pub record AttestationRequest : Type 0 where
  pub public_key : Option Bytes
  pub nonce : Option Bytes
  pub user_data : Option Bytes

-- `NsmBackend`: each call returns bytes or an error's text, and changes the state of the device.
pub record NsmBackend (S : Type 0) : Type 0 where
  pub get_attestation : AttestationRequest → S → Result Bytes Bytes × S
  pub get_random : S → Result Bytes Bytes × S

-- `len` of a slice that may be nil
abbrev pub len : Option Bytes → ℕ
len none = 0
len (some s) = length s

unfoldable pub validate_attestation_request : AttestationRequest → Result Bytes (Unit {0})
validate_attestation_request req = do
  require (not (len req.public_key == 0)) (codes "missing_public_key")
  require (not (ltb nsm_field_max_size (len req.public_key))) (codes "public_key_too_large")
  require (not (ltb nsm_field_max_size (len req.nonce))) (codes "nonce_too_large")
  require (not (ltb nsm_field_max_size (len req.user_data))) (codes "user_data_too_large")

-- What the NSM device is handed: a public key of 1 to 2048 bytes, and a nonce and user data of at
-- most 2048 bytes each.
pub record IsAttestationRequest (req : AttestationRequest) : Type 0 where
  pub public_key : (1 ≤ len req.public_key) × (len req.public_key ≤ 2048)
  pub nonce : len req.nonce ≤ 2048
  pub user_data : len req.user_data ≤ 2048

pub validate_attestation_request_iff :
    (req : AttestationRequest)
    → (validate_attestation_request req ≡ ok tt) ↔ IsAttestationRequest req
unfolding validate_attestation_request
validate_attestation_request_iff req = (λ h. ground arith, λ r. ground arith)
