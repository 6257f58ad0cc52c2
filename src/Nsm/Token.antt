-- ===== src/Nsm/Token.antt =====
-- nsm.go: `validNsmID` and `protocolError`.
use argonaut.Prelude.{
  ℕ, ◌≤◌, ◌≡◌, ◌≢◌, ◌↔◌, ◌⊎◌, inl, inr, refl, Bool, true, false, ◌&&◌, ◌||◌, [], ◌∷◌, arith,
  Bool-cases, Bytes, codes, equal, equal_iff, All, length, if◌then◌else◌, within, ltb, ◌==◌,
}

abbrev pub nsm_id_max_size : ℕ
nsm_id_max_size = 64

abbrev alphanumeric : ℕ → Bool
alphanumeric b = within b'a' b'z' b || within b'A' b'Z' b || within b'0' b'9' b

unfoldable pub is_id_byte : ℕ → Bool
is_id_byte b = alphanumeric b || b == b'.' || b == b'_' || b == b':' || b == b'-'

all_id_bytes : Bytes → Bool
all_id_bytes [] = true
all_id_bytes (b ∷ s) = is_id_byte b && all_id_bytes s

unfoldable pub valid_nsm_id : Bytes → Bool
unfolding all_id_bytes
valid_nsm_id id = if equal id [] || ltb nsm_id_max_size (length id) then false else all_id_bytes id

unfoldable pub is_reason_byte : ℕ → Bool
is_reason_byte r = alphanumeric r || r == b'_' || r == b'-' || r == b'.'

-- The loop over the runes of the reason; a rune that is not ASCII is refused, and so are its bytes.
all_reason_bytes : Bytes → Bool
all_reason_bytes [] = true
all_reason_bytes (r ∷ s) = is_reason_byte r && all_reason_bytes s

unfoldable pub protocol_error : Bytes → Bytes
unfolding all_reason_bytes
protocol_error reason =
    if equal reason []
    then codes "backend_error"
    else if all_reason_bytes reason
    then reason
    else codes "backend_error"

-- A letter, a digit, `.`, `_`, `:` or `-`: what stands in ids and in error codes.
abbrev pub IsTokenByte : ℕ → Type 0
IsTokenByte c =
    (b'a' ≤ c) × (c ≤ b'z')
    ⊎ (b'A' ≤ c) × (c ≤ b'Z')
    ⊎ (b'0' ≤ c) × (c ≤ b'9')
    ⊎ (c ≡ b'.')
    ⊎ (c ≡ b'_')
    ⊎ (c ≡ b':')
    ⊎ (c ≡ b'-')

-- One or more token bytes.
pub record IsToken (s : Bytes) : Type 0 where
  pub nonempty : s ≢ []
  pub bytes : All IsTokenByte s

is_id_byte_iff : (c : ℕ) → (is_id_byte c ≡ true) ↔ IsTokenByte c
unfolding is_id_byte
is_id_byte_iff c = (λ h. ground arith, λ h. ground arith)

reason_byte : (c : ℕ) → is_reason_byte c ≡ true → IsTokenByte c
unfolding is_reason_byte
reason_byte c h = ground arith

all_id_bytes_iff : (s : Bytes) → (all_id_bytes s ≡ true) ↔ All IsTokenByte s
unfolding all_id_bytes
all_id_bytes_iff [] = (λ _. tt, λ _. refl)
all_id_bytes_iff (c ∷ s) =
    let (to, from) = is_id_byte_iff c in
    let (tos, froms) = all_id_bytes_iff s in
    (λ h. both c s to tos h, λ (hc, hs). rw (from hc, froms hs))
  where
    both :
        (c : ℕ) (s : Bytes)
        → (is_id_byte c ≡ true → IsTokenByte c)
        → (all_id_bytes s ≡ true → All IsTokenByte s)
        → (is_id_byte c && all_id_bytes s) ≡ true
        → IsTokenByte c × All IsTokenByte s
    both c s to tos h = (to (ground arith), tos (ground arith))

all_reason_bytes-IsTokenByte : (s : Bytes) → all_reason_bytes s ≡ true → All IsTokenByte s
unfolding all_reason_bytes
all_reason_bytes-IsTokenByte [] h = tt
all_reason_bytes-IsTokenByte (c ∷ s) h =
    (reason_byte c (ground arith), all_reason_bytes-IsTokenByte s (ground arith))

-- `validNsmID` accepts exactly the tokens of at most 64 bytes.
pub valid_nsm_id_iff : (id : Bytes) → (valid_nsm_id id ≡ true) ↔ (IsToken id × (length id ≤ 64))
unfolding valid_nsm_id
valid_nsm_id_iff id = (
  λ h. (
    record {
      nonempty = λ e. ground (arith, equal_iff id []);
      bytes = (all_id_bytes_iff id).0 (ground arith);
    },
    ground arith,
  ),
  λ (t, small).
      let all = (all_id_bytes_iff id).1 t.bytes in ground (arith, equal_iff id [], t.nonempty),
)

-- What `protocolError` returns is a token, whatever the backend's message is.
pub protocol_error-IsToken : (reason : Bytes) → IsToken (protocol_error reason)
unfolding protocol_error
protocol_error-IsToken reason = elim (Bool-cases (equal reason [])) [
  | inl e ↦ rw e backend_error
  | inr e ↦ elim (Bool-cases (all_reason_bytes reason)) [
    | inl t ↦
        rw (e, t)
          (record {
            nonempty = λ q. ground (arith, equal_iff reason []);
            bytes = all_reason_bytes-IsTokenByte reason t;
          })
    | inr f ↦ rw (e, f) backend_error
  ]
]
  where
    backend_error : IsToken (codes "backend_error")
    backend_error = record { nonempty = cc; bytes = omega arith }
