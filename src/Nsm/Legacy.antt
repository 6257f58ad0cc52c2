-- ===== src/Nsm/Legacy.antt =====
-- nsm.go: `handleNsmLegacyLine`, the space-delimited protocol.
pub mod Framing
pub mod Parse
use argonaut.Nsm.Hex.{encode, decode_required_hex, decode_optional_legacy_hex}
use argonaut.Nsm.Request.{AttestationRequest, NsmBackend}
use argonaut.Nsm.Token.{valid_nsm_id, protocol_error}
use argonaut.Text.Split.{fields}
use argonaut.Prelude.{
  ℕ, Bool, true, false, not, List, [], ◌∷◌, ◌++◌, Option, none, some, Result, ok, err, Bytes, codes,
  equal, if◌then◌else◌,
}

-- `"%s ERR %s"`
abbrev pub err_line : Bytes → Bytes → Bytes
err_line id code = id ++ (codes " ERR " ++ code)

-- `"%s OK %s"`
abbrev pub ok_line : Bytes → Bytes → Bytes
ok_line id data_ = id ++ (codes " OK " ++ encode data_)

-- the response to what the backend returned
abbrev pub reply : Bytes → Result Bytes Bytes → Bytes
reply id (ok bytes) = ok_line id bytes
reply id (err reason) = err_line id (protocol_error reason)

module _ {S : Type 0} (backend : NsmBackend S) where
  -- The three decoded fields, each a code or a value, in the order of the source.
  attest :
      Bytes
      → Result Bytes Bytes
      → Result Bytes (Option Bytes)
      → Result Bytes (Option Bytes)
      → S
      → Bytes × S
  attest id (err code) _ _ s = (err_line id code, s)
  attest id (ok key) (err code) _ s = (err_line id code, s)
  attest id (ok key) (ok _) (err code) s = (err_line id code, s)
  attest id (ok key) (ok nonce) (ok user_data) s =
      let request : AttestationRequest = record {
        public_key = some key;
        nonce = nonce;
        user_data = user_data;
      } in
      let (result, s') = backend.get_attestation request s in (reply id result, s')

  -- `case "ATT"`, by the fields behind the method
  legacy_att : Bytes → List Bytes → S → Bytes × S
  unfolding attest
  legacy_att id [] s = (err_line id (codes "missing_public_key"), s)
  legacy_att id (key ∷ []) s =
      attest id (decode_required_hex key (codes "missing_public_key")) (ok none) (ok none) s
  legacy_att id (key ∷ nonce ∷ user_data ∷ []) s =
      attest id (decode_required_hex key (codes "missing_public_key"))
        (decode_optional_legacy_hex nonce) (decode_optional_legacy_hex user_data) s
  legacy_att id _ s = (err_line id (codes "invalid_request"), s)

  -- `case "RND"`
  legacy_rnd : Bytes → List Bytes → S → Bytes × S
  legacy_rnd id [] s = let (result, s') = backend.get_random s in (reply id result, s')
  legacy_rnd id (_ ∷ _) s = (err_line id (codes "invalid_request"), s)

  -- the `switch method`
  legacy_method : Bytes → Bytes → List Bytes → S → Bytes × S
  unfolding legacy_att legacy_rnd
  legacy_method id method args s =
      if equal method (codes "ATT")
      then legacy_att id args s
      else if equal method (codes "RND")
      then legacy_rnd id args s
      else (err_line id (codes "unknown_method"), s)

  legacy_args : Bytes → List Bytes → S → Bytes × S
  unfolding legacy_method
  legacy_args id [] s = (err_line id (codes "invalid_request"), s)
  legacy_args id (method ∷ args) s = legacy_method id method args s

  -- by the fields of the line
  legacy_parts : List Bytes → S → Bytes × S
  unfolding legacy_args
  legacy_parts [] s = legacy_args (codes "0") [] s
  legacy_parts (id ∷ rest) s =
      if not (valid_nsm_id id) then (codes "0 ERR invalid_id", s) else legacy_args id rest s

  unfoldable pub handle_nsm_legacy_line : Bytes → S → Bytes × S
  unfolding legacy_parts
  handle_nsm_legacy_line trimmed s = legacy_parts (fields trimmed) s
