-- ===== src/Nsm/JsonLine.antt =====
-- nsm.go: `handleNsmJSONLine` and `marshalNsmJSONResponse`, the JSON Lines protocol.
pub mod Framing
pub mod OneLine
pub mod Parse
use argonaut.Json.Decode.{DecodeError, wrong_value, unknown_field, decode_text, is_field}
use argonaut.Json.Parse.{parse_json}
use argonaut.Json.Print.{print}
use argonaut.Json.Value.{
  Json, Members, null, bool, number, text, array, object, members, no_members, member,
}
use argonaut.Nsm.Hex.{encode, decode_required_hex, decode_optional_hex}
use argonaut.Nsm.Request.{AttestationRequest, NsmBackend}
use argonaut.Nsm.Token.{valid_nsm_id, protocol_error}
use argonaut.Prelude.{
  ℕ, Bool, true, false, not, ◌&&◌, List, [], ◌∷◌, Option, none, some, Result, ok, err, ◌>>=◌,
  map_err, Bytes, codes, equal, if◌then◌else◌,
}

pub record NsmJsonRequest : Type 0 where
  pub id : Bytes
  pub method : Bytes
  pub public_key : Bytes
  pub nonce : Bytes
  pub user_data : Bytes

pub record NsmJsonResponse : Type 0 where
  pub id : Bytes
  pub ok : Bool
  pub data_ : Bytes
  pub error : Bytes

-- `var req nsmJSONRequest`
abbrev pub zero_request : NsmJsonRequest
zero_request = record { id = []; method = []; public_key = []; nonce = []; user_data = [] }

-- a member into the field that its key names, whatever its case
store_member : Bytes → Json → NsmJsonRequest → Result DecodeError NsmJsonRequest
store_member key v req =
    if is_field (codes "id") key
    then (decode_text req.id v >>= λ s. ok (record req { id = s }))
    else if is_field (codes "method") key
    then (decode_text req.method v >>= λ s. ok (record req { method = s }))
    else if is_field (codes "publicKey") key
    then (decode_text req.public_key v >>= λ s. ok (record req { public_key = s }))
    else if is_field (codes "nonce") key
    then (decode_text req.nonce v >>= λ s. ok (record req { nonce = s }))
    else if is_field (codes "userData") key
    then (decode_text req.user_data v >>= λ s. ok (record req { user_data = s }))
    else err unknown_field

unfoldable pub store_request :
    NsmJsonRequest → List (Bytes × Json) → Result DecodeError NsmJsonRequest
unfolding store_member
store_request req [] = ok req
store_request req ((k, v) ∷ ms) = do req' ← store_member k v req; store_request req' ms

-- `dec.Decode(&req)` with `DisallowUnknownFields`, from the parsed value
unfoldable pub decode_request : Json → Result DecodeError NsmJsonRequest
decode_request null = ok zero_request
decode_request (object ms) = store_request zero_request (members ms)
decode_request _ = err wrong_value

-- with the check for trailing data; why the line is not a request is not said
unfoldable pub read_request : Bytes → Option NsmJsonRequest
read_request line = elim (parse_json line) [
  | err e ↦ none
  | ok v ↦ elim (decode_request v) [ err e ↦ none | ok req ↦ some req ]
]

-- `omitempty`
abbrev pub omit_empty : Bytes → Bytes → Members → Members
omit_empty key [] ms = ms
omit_empty key (c ∷ s) ms = member key (text (c ∷ s)) ms

abbrev pub response_members : NsmJsonResponse → Members
response_members resp = member (codes "id") (text resp.id) (
    member (codes "ok") (bool resp.ok)
      (omit_empty (codes "data") resp.data_ (omit_empty (codes "error") resp.error no_members)))

abbrev pub response_json : NsmJsonResponse → Json
response_json resp = object (response_members resp)

-- `json.Marshal` of a struct of strings and a Boolean does not fail.
unfoldable pub marshal_nsm_json_response : NsmJsonResponse → Bytes
marshal_nsm_json_response resp = print (response_json resp)

abbrev pub failure : Bytes → Bytes → NsmJsonResponse
failure id code = record { id = id; ok = false; data_ = []; error = code }

abbrev pub success : Bytes → Bytes → NsmJsonResponse
success id bytes = record { id = id; ok = true; data_ = encode bytes; error = [] }

-- the response to what the backend returned
abbrev pub answer : Bytes → Result Bytes Bytes → NsmJsonResponse
answer id (ok bytes) = success id bytes
answer id (err reason) = failure id (protocol_error reason)

module _ {S : Type 0} (backend : NsmBackend S) where
  -- The three decoded fields, each a code or a value, in the order of the source.
  json_attest :
      Bytes
      → Result Bytes Bytes
      → Result Bytes (Option Bytes)
      → Result Bytes (Option Bytes)
      → S
      → NsmJsonResponse × S
  json_attest id (err code) _ _ s = (failure id code, s)
  json_attest id (ok key) (err code) _ s = (failure id code, s)
  json_attest id (ok key) (ok _) (err code) s = (failure id code, s)
  json_attest id (ok key) (ok nonce) (ok user_data) s =
      let request : AttestationRequest = record {
        public_key = some key;
        nonce = nonce;
        user_data = user_data;
      } in
      let (result, s') = backend.get_attestation request s in (answer id result, s')

  -- `case "ATT"`
  json_att : NsmJsonRequest → S → NsmJsonResponse × S
  unfolding json_attest
  json_att req s =
      json_attest req.id (decode_required_hex req.public_key (codes "missing_public_key"))
        (decode_optional_hex req.nonce) (decode_optional_hex req.user_data) s

  -- `case "RND"`
  json_rnd : NsmJsonRequest → S → NsmJsonResponse × S
  json_rnd req s =
      let (result, s') = backend.get_random s in
      if equal req.public_key [] && equal req.nonce [] && equal req.user_data []
      then (answer req.id result, s')
      else (failure req.id (codes "invalid_request"), s)

  -- from the check of the id on
  unfoldable pub json_response : NsmJsonRequest → S → NsmJsonResponse × S
  unfolding json_att json_rnd
  json_response req s =
      if not (valid_nsm_id req.id)
      then (failure [] (codes "invalid_id"), s)
      else if equal req.method (codes "ATT")
      then json_att req s
      else if equal req.method (codes "RND")
      then json_rnd req s
      else (failure req.id (codes "unknown_method"), s)

  pub respond : Option NsmJsonRequest → S → NsmJsonResponse × S
  respond none s = (failure [] (codes "invalid_json"), s)
  respond (some req) s = json_response req s

  unfoldable pub handle_nsm_json_line : Bytes → S → Bytes × S
  unfolding respond
  handle_nsm_json_line line s =
      let (resp, s') = respond (read_request line) s in (marshal_nsm_json_response resp, s')
