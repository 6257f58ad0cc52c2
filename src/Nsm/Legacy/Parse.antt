-- ===== src/Nsm/Legacy/Parse.antt =====
-- nsm.go: request lines of the space-delimited protocol that were written as it says.
use argonaut.Nsm.Hex.{encode, encode-IsHexDigit, IsHexDigit}
use argonaut.Nsm.Hex.RoundTrip.{
  IsField, IsOptionalField, show_optional, encode-ne-nil, decode_required-encode,
  decode_legacy-show,
}
use argonaut.Nsm.Legacy.{reply, legacy_att, legacy_parts, handle_nsm_legacy_line}
use argonaut.Nsm.Request.{NsmBackend}
use argonaut.Nsm.Token.{valid_nsm_id_iff, IsToken, IsTokenByte}
use argonaut.Text.Split.Words.{IsInk, IsWord, fields-join}
use argonaut.Text.Split.{join}
use argonaut.Prelude.{
  ◌≤◌, ◌≡◌, ◌∙◌, List, [], ◌∷◌, Option, none, some, Result, Bytes, codes, equal, All-map, length,
  arith,
}

token-IsWord : (s : Bytes) → IsToken s → IsWord s
token-IsWord s t = record {
  nonempty = t.nonempty;
  ink = All-map IsTokenByte IsInk s (λ c h. ground arith) t.bytes;
}

encode-IsWord : (s : Bytes) → IsField s → IsWord (encode s)
encode-IsWord s f = record {
  nonempty = encode-ne-nil s f.nonempty;
  ink = All-map IsHexDigit IsInk (encode s) (λ c h. ground arith) (encode-IsHexDigit s f.bytes);
}

dash-IsWord : IsWord (codes "-")
dash-IsWord = record { nonempty = cc; ink = omega arith }

show_optional-IsWord : (o : Option Bytes) → IsOptionalField o → IsWord (show_optional o)
show_optional-IsWord none f = dash-IsWord
show_optional-IsWord (some s) f = encode-IsWord s f

-- The words of the three requests.
abbrev pub att_request : Bytes → Bytes → Option Bytes → Option Bytes → Bytes
att_request id key nonce user_data =
    join b' ' (id ∷ codes "ATT" ∷ encode key ∷ show_optional nonce ∷ show_optional user_data ∷ [])

abbrev pub short_att_request : Bytes → Bytes → Bytes
short_att_request id key = join b' ' (id ∷ codes "ATT" ∷ encode key ∷ [])

abbrev pub rnd_request : Bytes → Bytes
rnd_request id = join b' ' (id ∷ codes "RND" ∷ [])

att-IsWord : IsWord (codes "ATT")
att-IsWord = record { nonempty = cc; ink = omega arith }

rnd-IsWord : IsWord (codes "RND")
rnd-IsWord = record { nonempty = cc; ink = omega arith }

abbrev pub answer : {S : Type 0} → Bytes → Result Bytes Bytes × S → Bytes × S
answer id (result, s') = (reply id result, s')

module _ {S : Type 0} (backend : NsmBackend S) (id : Bytes) (token : IsToken id)
    (short : length id ≤ 64) where
  dispatch-att :
      (args : List Bytes) (s : S)
      → legacy_parts backend (id ∷ codes "ATT" ∷ args) s ≡ legacy_att backend id args s
  unfolding legacy_parts equal
  dispatch-att args s = rw ((valid_nsm_id_iff id).1 (token, short))

  dispatch-rnd :
      (s : S) → legacy_parts backend (id ∷ codes "RND" ∷ []) s ≡ answer id (backend.get_random s)
  unfolding legacy_parts equal
  dispatch-rnd s = rw ((valid_nsm_id_iff id).1 (token, short))

  run-att :
      (key : Bytes) (nonce user_data : Option Bytes) (s : S)
      → IsField key
      → IsOptionalField nonce
      → IsOptionalField user_data
      → legacy_att backend id (encode key ∷ show_optional nonce ∷ show_optional user_data ∷ []) s
        ≡ answer id (
            backend.get_attestation
              (record { public_key = some key; nonce = nonce; user_data = user_data })
              s)
  unfolding legacy_att
  run-att key nonce user_data s k n u =
      rw
        (decode_required-encode key _ k, decode_legacy-show nonce n, decode_legacy-show user_data u)

  run-short :
      (key : Bytes) (s : S)
      → IsField key
      → legacy_att backend id (encode key ∷ []) s
        ≡ answer id (
            backend.get_attestation
              (record { public_key = some key; nonce = none; user_data = none })
              s)
  unfolding legacy_att
  run-short key s k = rw (decode_required-encode key _ k)

-- A well-formed line of any of the three kinds makes exactly one call of the backend, with the
-- bytes that the line was printed from (`-` stands for a nil slice), and the response carries the
-- line's id and the backend's result.
pub handle-requests :
    {S : Type 0} (backend : NsmBackend S) (id key : Bytes) (nonce user_data : Option Bytes) (s : S)
    → IsToken id
    → length id ≤ 64
    → IsField key
    → IsOptionalField nonce
    → IsOptionalField user_data
    → (handle_nsm_legacy_line backend (att_request id key nonce user_data) s
        ≡ answer id (
            backend.get_attestation
              (record { public_key = some key; nonce = nonce; user_data = user_data })
              s))
      × (handle_nsm_legacy_line backend (short_att_request id key) s
          ≡ answer id (
              backend.get_attestation
                (record { public_key = some key; nonce = none; user_data = none })
                s))
      × (handle_nsm_legacy_line backend (rnd_request id) s ≡ answer id (backend.get_random s))
unfolding handle_nsm_legacy_line
handle-requests backend id key nonce user_data s token short k n u = (
  rw
      (fields-join
        (id ∷ codes "ATT" ∷ encode key ∷ show_optional nonce ∷ show_optional user_data ∷ [])
        (
          word,
          (
            att-IsWord,
            (key_word, (show_optional-IsWord nonce n, (show_optional-IsWord user_data u, tt))),
          ),
        ))
      (dispatch-att backend id token short
          (encode key ∷ show_optional nonce ∷ show_optional user_data ∷ []) s
        ∙ run-att backend id token short key nonce user_data s k n u),
  rw (fields-join (id ∷ codes "ATT" ∷ encode key ∷ []) (word, (att-IsWord, (key_word, tt)))) (
      dispatch-att backend id token short (encode key ∷ []) s
      ∙ run-short backend id token short key s k),
  rw (fields-join (id ∷ codes "RND" ∷ []) (word, (rnd-IsWord, tt)))
      (dispatch-rnd backend id token short s),
)
  where
    word : IsWord id
    word = token-IsWord id token

    key_word : IsWord (encode key)
    key_word = encode-IsWord key k
