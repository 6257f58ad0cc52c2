-- ===== src/Nsm/Device.antt =====
-- nsm.go: the requests to the NSM device and its answers.
--
-- The CBOR library and the kernel are parameters. A CBOR map with text keys is an association list;
-- the error of the library is its text.
pub mod Cases
pub mod Answers
pub mod Exchange
use argonaut.Nsm.Request.{AttestationRequest, validate_attestation_request}
use argonaut.Prelude.{
  ℕ, Bool, true, false, not, ◌||◌, List, [], ◌∷◌, Option, none, some, Result, ok, err, ◌>>=◌, ◌>>◌,
  require, map_err, Bytes, codes, equal, length, take, ltb, ◌==◌, if◌then◌else◌,
}

abbrev pub nsm_request_max_size : ℕ
nsm_request_max_size = 0x1000

abbrev pub nsm_response_max_size : ℕ
nsm_response_max_size = 0x3000

-- A constructor for each message of the source.
pub data DeviceError : Type 0 where
  invalid_request encode_request : Bytes → DeviceError
  empty_request input_too_large : DeviceError
  request_too_large ioctl_failed response_too_large : ℕ → DeviceError
  decode_response decode_attestation decode_attestation_document : Bytes → DeviceError
  decode_random decode_random_bytes decode_error : Bytes → DeviceError
  unknown_shape ambiguous_shape : DeviceError
  missing_document empty_document missing_random empty_random empty_error_code : DeviceError
  nsm_error unexpected_variant : Bytes → DeviceError

-- A Go map of byte strings and nil, which has no order: the value at each of its keys.
abbrev pub FieldMap : Type 0
FieldMap = Bytes → Option (Option Bytes)

-- The Go values that are encoded: a text, or a map with one key, whose value is such a map.
pub data Item : Type 0 where
  text_item : Bytes → Item
  struct_item : Bytes → FieldMap → Item

-- `cbor.Marshal`, in whichever order it encodes a map, and `cbor.Unmarshal` into a map of raw messages, a byte slice and a string.
pub record Cbor : Type 0 where
  pub marshal : Item → Result Bytes Bytes
  pub unmarshal_map : Bytes → Result Bytes (List (Bytes × Bytes))
  pub unmarshal_bytes : Bytes → Result Bytes Bytes
  pub unmarshal_text : Bytes → Result Bytes Bytes

-- After the system call: errno, the response buffer, and the length that the kernel set.
pub record IoctlResult : Type 0 where
  pub errno : ℕ
  pub response : Bytes
  pub response_len : ℕ

pub record NsmResponse : Type 0 where
  pub variant : Bytes
  pub document : Bytes
  pub random : Bytes
  pub error : Bytes

-- `m[key]` and whether it is there
abbrev pub lookup : Bytes → List (Bytes × Bytes) → Option Bytes
lookup key [] = none
lookup key ((k, v) ∷ m) = if equal k key then some v else lookup key m

abbrev pub present : DeviceError → Option Bytes → Result DeviceError Bytes
present e none = err e
present e (some v) = ok v

-- `EMSGSIZE` is 90 on Linux.
ioctl_response : IoctlResult → Result DeviceError Bytes
ioctl_response r = do
  require (not (r.errno == 90)) input_too_large
  require (r.errno == 0) (ioctl_failed r.errno)
  require (not (ltb nsm_response_max_size r.response_len)) (response_too_large r.response_len)
  ok (take r.response_len r.response)

unfoldable pub nsm_ioctl :
    {S : Type 0} → (Bytes → S → IoctlResult × S) → Bytes → S → Result DeviceError Bytes × S
unfolding ioctl_response
nsm_ioctl ioctl request s =
    if length request == 0
    then (err empty_request, s)
    else if ltb nsm_request_max_size (length request)
    then (err (request_too_large (length request)), s)
    else let (r, s') = ioctl request s in (ioctl_response r, s')

-- `inner`
abbrev request_fields : AttestationRequest → FieldMap
request_fields req key =
    if equal key (codes "user_data")
    then some req.user_data
    else if equal key (codes "nonce")
    then some req.nonce
    else if equal key (codes "public_key")
    then some req.public_key
    else none

module _ (cbor : Cbor) where
  unfoldable pub encode_attestation_request : AttestationRequest → Result Bytes Bytes
  encode_attestation_request req = do
    validate_attestation_request req
    cbor.marshal (struct_item (codes "Attestation") (request_fields req))

  unfoldable pub encode_get_random_request : Result Bytes Bytes
  encode_get_random_request = cbor.marshal (text_item (codes "GetRandom"))

  -- `case "Attestation"`
  attestation_case : Bytes → Result DeviceError NsmResponse
  attestation_case raw = do
    inner ← map_err decode_attestation (cbor.unmarshal_map raw)
    raw_document ← present missing_document (lookup (codes "document") inner)
    document ← map_err decode_attestation_document (cbor.unmarshal_bytes raw_document)
    require (not (length document == 0)) empty_document
    ok (record { variant = codes "Attestation"; document = document; random = []; error = [] })

  -- `case "GetRandom"`
  get_random_case : Bytes → Result DeviceError NsmResponse
  get_random_case raw = do
    inner ← map_err decode_random (cbor.unmarshal_map raw)
    raw_random ← present missing_random (lookup (codes "random") inner)
    random ← map_err decode_random_bytes (cbor.unmarshal_bytes raw_random)
    require (not (length random == 0)) empty_random
    ok (record { variant = codes "GetRandom"; document = []; random = random; error = [] })

  -- `case "Error"`
  error_case : Bytes → Result DeviceError NsmResponse
  error_case raw = do
    code ← map_err decode_error (cbor.unmarshal_text raw)
    require (not (equal code [])) empty_error_code
    ok (record { variant = codes "Error"; document = []; random = []; error = code })

  -- the `switch key`
  response_case : Bytes → Bytes → Result DeviceError NsmResponse
  response_case key raw =
      if equal key (codes "Attestation")
      then attestation_case raw
      else if equal key (codes "GetRandom")
      then get_random_case raw
      else if equal key (codes "Error")
      then error_case raw
      else err unknown_shape

  -- the tests of `len(m)`
  single_entry : List (Bytes × Bytes) → Result DeviceError NsmResponse
  single_entry [] = err unknown_shape
  single_entry ((key, raw) ∷ []) = response_case key raw
  single_entry (_ ∷ _ ∷ _) = err ambiguous_shape

  unfoldable pub decode_nsm_response : Bytes → Result DeviceError NsmResponse
  unfolding single_entry response_case attestation_case get_random_case error_case
  decode_nsm_response msg = do m ← map_err decode_response (cbor.unmarshal_map msg); single_entry m

  unfoldable pub decode_attestation_response : Bytes → Result DeviceError Bytes
  decode_attestation_response msg = do
    resp ← decode_nsm_response msg
    require (equal resp.error []) (nsm_error resp.error)
    require (equal resp.variant (codes "Attestation")) (unexpected_variant resp.variant)
    ok resp.document

  unfoldable pub decode_get_random_response : Bytes → Result DeviceError Bytes
  decode_get_random_response msg = do
    resp ← decode_nsm_response msg
    require (equal resp.error []) (nsm_error resp.error)
    require (equal resp.variant (codes "GetRandom")) (unexpected_variant resp.variant)
    ok resp.random

  module _ {S : Type 0} (ioctl : Bytes → S → IoctlResult × S) where
    -- `resp, err := nsmIoctl(...)`, then the decoding of the response
    exchange :
        (Bytes → Result DeviceError Bytes)
        → Result DeviceError Bytes
        → S
        → Result DeviceError Bytes × S
    exchange decode (err e) s = (err e, s)
    exchange decode (ok request) s =
        let (resp, s') = nsm_ioctl ioctl request s in (resp >>= decode, s')

    unfoldable pub get_attestation : AttestationRequest → S → Result DeviceError Bytes × S
    unfolding exchange
    get_attestation req s =
        exchange decode_attestation_response
          (map_err invalid_request (validate_attestation_request req)
            >> map_err encode_request (encode_attestation_request req))
          s

    unfoldable pub get_random : S → Result DeviceError Bytes × S
    unfolding exchange
    get_random s =
        exchange decode_get_random_response (map_err encode_request encode_get_random_request) s
